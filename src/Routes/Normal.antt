-- ===== src/Routes/Normal.antt =====
-- The two ways to normalise a host name, in internal/database/route_resolver.go and
-- internal/database/database.go, agree.
use netgoat.Prelude.{
  ℕ, ◌≡◌, refl, sym, ap, ◌∙◌, Bool, false, none, some, [], ◌∷◌, if◌then◌else◌, nat_eq, arith,
  Bool-cases, inl, inr, ◌⊎◌,
}
use netgoat.Std.Text.{
  Bytes, bytes_eq, codes, to_lower, trim_left, trim_right, trim, is_space, trim_space, trim_prefix,
  has_prefix, contains, cut,
}
use netgoat.Std.Search.{has_suffix, trim_suffix}
use netgoat.Routes.Domain.{
  plain_host, split_host_port, without_port, normalize_domain, normalize_resolver_domain,
}

module _ (p : ℕ → Bool) where
  trim_right_idem : (s : Bytes) → trim_right p (trim_right p s) ≡ trim_right p s
  unfolding trim_right
  trim_right_idem [] = refl
  trim_right_idem (c ∷ s) = go (trim_right p s) (trim_right_idem s)
    where
      go :
          (r : Bytes)
          → trim_right p r ≡ r
          → trim_right p
              (elim r as (λ _. Bytes) [ [] ↦ if p c then [] else c ∷ [] | d ∷ q ↦ c ∷ d ∷ q ])
            ≡ (elim r as (λ _. Bytes) [ [] ↦ if p c then [] else c ∷ [] | d ∷ q ↦ c ∷ d ∷ q ])
      go [] h = elim (Bool-cases (p c)) [ inl e ↦ rw e refl | inr e ↦ rw e (rw e refl) ]
      go (d ∷ q) h =
          ap (λ r. elim r as (λ _. Bytes) [ [] ↦ if p c then [] else c ∷ [] | b ∷ q' ↦ c ∷ b ∷ q' ])
            h

  trim_right_kept : (c : ℕ) (s : Bytes) → p c ≡ false → trim_right p (c ∷ s) ≡ c ∷ trim_right p s
  unfolding trim_right
  trim_right_kept c s e = go (trim_right p s)
    where
      go :
          (r : Bytes)
          → (elim r as (λ _. Bytes) [ [] ↦ if p c then [] else c ∷ [] | d ∷ q ↦ c ∷ d ∷ q ]) ≡ c ∷ r
      go [] = rw e refl
      go (d ∷ q) = refl

  trim_left-cases :
      (s : Bytes)
      → (trim_left p s ≡ []) ⊎ ((c : ℕ) × (r : Bytes) × (trim_left p s ≡ c ∷ r) × (p c ≡ false))
  unfolding trim_left
  trim_left-cases [] = inl refl
  trim_left-cases (c ∷ s) = elim (Bool-cases (p c)) [
    | inl e ↦ rw e (trim_left-cases s)
    | inr e ↦ rw e (inr (c, s, refl, e))
  ]

  trim_left_kept : (c : ℕ) (s : Bytes) → p c ≡ false → trim_left p (c ∷ s) ≡ c ∷ s
  unfolding trim_left
  trim_left_kept c s e = rw e refl

  trim_idem : (s : Bytes) → trim p (trim p s) ≡ trim p s
  unfolding trim
  trim_idem s = elim (trim_left-cases s) [
    | inl e ↦ rw e (unfold trim_left trim_right in refl)
    | inr (c, r, e, kept) ↦
        let again = trim_right_kept c (trim_right p r) kept ∙ ap (◌∷◌ c) (trim_right_idem r) in
        rw (e, trim_right_kept c r kept, trim_left_kept c (trim_right p r) kept) again
  ]

trim_space_idem : (s : Bytes) → trim_space (trim_space s) ≡ trim_space s
unfolding trim_space
trim_space_idem s = trim_idem is_space s

-- A text without a colon or a leading bracket has no port to split off.
cut_absent : (b : ℕ) (s : Bytes) → contains s (b ∷ []) ≡ false → cut b s ≡ none
unfolding contains cut has_prefix
cut_absent b [] h = refl
cut_absent b (c ∷ s) h = ground (arith, h, cut_absent b s)

split_host_port_absent :
    (s : Bytes)
    → contains s (codes ":") ≡ false
    → has_prefix s (codes "[") ≡ false
    → split_host_port s ≡ none
unfolding split_host_port has_prefix plain_host
split_host_port_absent [] h k = refl
split_host_port_absent (c ∷ s) h k = ground (arith, cut_absent b':' (c ∷ s) h, k)

trim_prefix_absent : (s : Bytes) → has_prefix s (codes "[") ≡ false → trim_prefix s (codes "[") ≡ s
unfolding trim_prefix
trim_prefix_absent [] k = refl
trim_prefix_absent (c ∷ s) k = rw k refl

trim_suffix_absent : (s p : Bytes) → has_suffix s p ≡ false → trim_suffix s p ≡ s
unfolding trim_suffix
trim_suffix_absent s p h = rw h refl

without_port_absent :
    (s : Bytes)
    → contains s (codes ":") ≡ false
    → has_prefix s (codes "[") ≡ false
    → has_suffix s (codes "]") ≡ false
    → without_port s ≡ s
unfolding without_port
without_port_absent s h k l =
    ap
      (λ o. elim o as (λ _. Bytes) [
        | some host ↦ host
        | none ↦ trim_prefix (trim_suffix s (codes "]")) (codes "[")
      ])
      (split_host_port_absent s h k)
    ∙ (ap (λ x. trim_prefix x (codes "[")) (trim_suffix_absent s (codes "]") l)
        ∙ trim_prefix_absent s k)

-- The resolver's shortcut normalises a host name as the database lookups do, unless the name ends
-- in a bracket.
normalize_resolver_domain-eq-normalize_domain :
    (domain : Bytes)
    → has_suffix (trim_space domain) (codes "]") ≡ false
    → normalize_resolver_domain domain ≡ normalize_domain domain
unfolding normalize_resolver_domain normalize_domain
normalize_resolver_domain-eq-normalize_domain domain no_bracket =
    let t = trim_space domain in
    let same = trim_space_idem domain in
    elim (Bool-cases (contains t (codes ":"))) [
      | inl e ↦ rw (e, same) refl
      | inr e ↦ elim (Bool-cases (has_prefix t (codes "["))) [
        | inl k ↦ rw (e, k, same) refl
        | inr k ↦
            rw (e, k)
              (ap (λ x. to_lower (trim_suffix x (codes ".")))
                (sym (without_port_absent t e k no_bracket)))
      ]
    ]
