-- ===== src/Routes/Wildcard.antt =====
-- What `wildcardDomainMatch` of internal/database/database.go accepts.
use netgoat.Prelude.{
  ℕ, ◌≡◌, refl, sym, ap, ◌∙◌, true, false, ◌&&◌, List, [], ◌∷◌, ◌++◌, ◌==◌, length, arith,
  Bool-cases, inl, inr, nat_eq,
}
use mathlib.Core.List.{append_assoc}
use netgoat.Std.Text.{Bytes, bytes_eq, bytes_beq_iff, bytes_beq_refl, has_prefix, split}
use netgoat.Std.Search.{has_suffix, drop, drop_prefix, has_prefix-append, index-append, has_byte}
use netgoat.Routes.Matcher.{match_middle, last_part, match_parts, wildcard_domain_match}

-- A text is what the parts of a pattern stand for if it is the parts, one after the other, with
-- any text for each star between them.
unfoldable pub Expands : List Bytes → Bytes → Type 0
Expands [] d = ⊥
Expands (p ∷ []) d = d ≡ p
Expands (p ∷ q ∷ ps) d = (g : Bytes) × (s : Bytes) × (d ≡ p ++ (g ++ s)) × Expands (q ∷ ps) s

has_suffix-append : (g p : Bytes) → has_suffix (g ++ p) p ≡ true
unfolding has_suffix
has_suffix-append [] [] = bytes_beq_refl []
has_suffix-append [] (c ∷ p) = ground (arith, bytes_beq_refl (c ∷ p))
has_suffix-append (c ∷ g) p = ground (arith, has_suffix-append g p)

ends_in :
    (q : Bytes) (ps : List Bytes) (s : Bytes)
    → Expands (q ∷ ps) s
    → (t : Bytes) × (s ≡ t ++ last_part q ps)
unfolding Expands last_part
ends_in q [] s e = ([], e)
ends_in q (n ∷ ps) s (g, s', e, rest) =
    let (t, e') = ends_in n ps s' rest in
    (q ++ (g ++ t), e ∙ (ap (λ x. q ++ (g ++ x)) e' ∙ simp append_assoc))

match_middle_lem :
    (q : Bytes) (ps : List Bytes) (s g : Bytes)
    → Expands (q ∷ ps) s
    → match_middle (q ∷ ps) (g ++ s) ≡ true
unfolding match_middle Expands
match_middle_lem q [] s g e = refl
match_middle_lem q (n ∷ ps) s g (g', s', e, rest) = elim (Bool-cases (q == [])) [
  | inl empty ↦
      let gone : q ≡ [] = (bytes_beq_iff q []).0 empty in
      let here : g ++ s ≡ (g ++ g') ++ s' =
        ap (λ x. g ++ x) (e ∙ ap (λ x. x ++ (g' ++ s')) gone) ∙ sym (append_assoc g g' s') in
      rw (empty, here) (match_middle_lem n ps s' (g ++ g') rest)
  | inr some_part ↦
      let (i, r, found, left) = index-append g q (g' ++ s') in
      let here : g ++ s ≡ g ++ (q ++ (g' ++ s')) = ap (λ x. g ++ x) e in
      rw (some_part, here, found, here, left, ← append_assoc r g' s')
        (match_middle_lem n ps s' (r ++ g') rest)
]

match_parts_lem : (ps : List Bytes) (d : Bytes) → Expands ps d → match_parts ps d ≡ true
unfolding match_parts Expands
match_parts_lem [] d e = absurd e
match_parts_lem (p ∷ []) d e = (bytes_beq_iff p d).1 (sym e)
match_parts_lem (p ∷ q ∷ ps) d (g, s, e, rest) =
    let (t, ends) = ends_in q ps s rest in
    let first : has_prefix d p ≡ true = rw e (has_prefix-append p (g ++ s)) in
    let whole : d ≡ (p ++ (g ++ t)) ++ last_part q ps =
      e ∙ (ap (λ x. p ++ (g ++ x)) ends ∙ simp append_assoc) in
    let last : has_suffix d (last_part q ps) ≡ true =
      rw whole (has_suffix-append (p ++ (g ++ t)) (last_part q ps)) in
    let middle : match_middle (q ∷ ps) (drop (length p) d) ≡ true =
      rw (e, drop_prefix p (g ++ s)) (match_middle_lem q ps s g rest) in
    simp (first, last, middle)

-- No domain that a pattern stands for is turned away.
wildcard_domain_match-Expands :
    (pattern domain : Bytes)
    → Expands (split b'*' pattern) domain
    → wildcard_domain_match pattern domain ≡ true
unfolding wildcard_domain_match
wildcard_domain_match-Expands pattern domain e = match_parts_lem (split b'*' pattern) domain e

split_no_sep : (sep : ℕ) (s : Bytes) → has_byte sep s ≡ false → split sep s ≡ s ∷ []
unfolding split has_byte
split_no_sep sep [] h = refl
split_no_sep sep (c ∷ s) h =
    let other : (c == sep) ≡ false = ground (arith, h) in
    rw (split_no_sep sep s (ground (arith, h))) (rw other refl)

split_first :
    (sep : ℕ) (a b : Bytes)
    → has_byte sep a ≡ false
    → has_byte sep b ≡ false
    → split sep (a ++ sep ∷ b) ≡ a ∷ b ∷ []
unfolding split has_byte
split_first sep [] b h k =
    let same : (sep == sep) ≡ true = ground arith in rw (split_no_sep sep b k, same) refl
split_first sep (c ∷ a) b h k =
    let other : (c == sep) ≡ false = ground (arith, h) in
    rw (split_first sep a b (ground (arith, h)) k) (rw other refl)

-- A pattern with one star accepts exactly the domains that begin as it begins and end as it ends,
-- even where the two overlap and leave nothing for the star.
wildcard_domain_match_one_star :
    (a b domain : Bytes)
    → has_byte b'*' a ≡ false
    → has_byte b'*' b ≡ false
    → wildcard_domain_match (a ++ b'*' ∷ b) domain ≡ (has_prefix domain a && has_suffix domain b)
unfolding wildcard_domain_match
wildcard_domain_match_one_star a b domain h k =
    rw (split_first b'*' a b h k) (unfold match_parts match_middle last_part in ground arith)
