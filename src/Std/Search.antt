-- ===== src/Std/Search.antt =====
-- What the program calls of `strings` to look for one text in another.
use netgoat.Prelude.{
  ℕ, zero, suc, ◌+◌, ◌-◌, ◌≤◌, ◌≡◌, refl, Bool, true, false, ◌||◌, [], ◌∷◌, ◌++◌, arith, ◌==◌,
  nat_eq, if◌then◌else◌, Option, none, some, length, length-append, take, ap, sym, ◌∙◌, Bool-cases,
  inl, inr,
}
use mathlib.Core.List.{append_assoc}
use netgoat.Std.Text.{Bytes, bytes_eq, has_prefix}

unfoldable pub drop : ℕ → Bytes → Bytes
drop zero s = s
drop (suc n) [] = []
drop (suc n) (c ∷ s) = drop n s

unfoldable pub has_suffix : Bytes → Bytes → Bool
has_suffix [] p = [] == p
has_suffix (c ∷ s) p = (c ∷ s) == p || has_suffix s p

-- What `strings.TrimSuffix` leaves.
unfoldable pub trim_suffix : Bytes → Bytes → Bytes
trim_suffix s p = if has_suffix s p then take (length s - length p) s else s

-- `strings.Index`: where the first occurrence begins.
unfoldable pub index : Bytes → Bytes → Option ℕ
index [] p = if has_prefix [] p then some 0 else none
index (c ∷ s) p =
    if has_prefix (c ∷ s) p
    then some 0
    else elim (index s p) [ none ↦ none | some i ↦ some (suc i) ]

-- Whether a byte occurs.
unfoldable pub has_byte : ℕ → Bytes → Bool
has_byte b [] = false
has_byte b (c ∷ s) = c == b || has_byte b s

pub has_prefix-append : (p s : Bytes) → has_prefix (p ++ s) p ≡ true
unfolding has_prefix
has_prefix-append [] [] = refl
has_prefix-append [] (c ∷ s) = refl
has_prefix-append (c ∷ p) s = ground (arith, has_prefix-append p s)

index_here : (s p : Bytes) → has_prefix s p ≡ true → index s p ≡ some 0
unfolding index
index_here [] p h = ground (arith, h)
index_here (c ∷ s) p h = ground (arith, h)

index_later :
    (c : ℕ) (s p : Bytes) (i : ℕ)
    → has_prefix (c ∷ s) p ≡ false
    → index s p ≡ some i
    → index (c ∷ s) p ≡ some (suc i)
unfolding index
index_later c s p i h e = rw (h, e) refl

drop-append : (n : ℕ) (a b : Bytes) → n ≤ length a → drop n (a ++ b) ≡ drop n a ++ b
unfolding drop
drop-append zero a b h = refl
drop-append (suc n) [] b h = absurd (omega arith)
drop-append (suc n) (c ∷ a) b h = drop-append n a b (omega arith)

drop-suc : (n c : ℕ) (s : Bytes) → drop (suc n) (c ∷ s) ≡ drop n s
unfolding drop
drop-suc n c s = refl

pub drop_prefix : (p s : Bytes) → drop (length p) (p ++ s) ≡ s
unfolding drop
drop_prefix [] s = refl
drop_prefix (c ∷ p) s = drop_prefix p s

-- The first occurrence ends no later than one that is known: what follows that one is left.
pub index-append :
    (g p t : Bytes)
    → (i : ℕ) × (r : Bytes) × (index (g ++ (p ++ t)) p ≡ some i)
      × (drop (i + length p) (g ++ (p ++ t)) ≡ r ++ t)
index-append [] p t = (
  0,
  [],
  index_here (p ++ t) p (has_prefix-append p t),
  ap (λ n. drop n (p ++ t)) (omega arith) ∙ drop_prefix p t,
)
index-append (c ∷ g) p t = elim (Bool-cases (has_prefix (c ∷ g ++ (p ++ t)) p)) [
  | inl here ↦ (
    0,
    drop (length p) (c ∷ g ++ p),
    index_here (c ∷ g ++ (p ++ t)) p here,
    ap (λ n. drop n (c ∷ g ++ (p ++ t))) (omega arith)
        ∙ (ap (λ s. drop (length p) (c ∷ s)) (sym (append_assoc g p t))
            ∙ drop-append (length p) (c ∷ g ++ p) t (omega (arith, length-append g p))),
  )
  | inr later ↦
      let (i, r, found, left) = index-append g p t in
      (
        suc i,
        r,
        index_later c (g ++ (p ++ t)) p i later found,
        ap (λ n. drop n (c ∷ g ++ (p ++ t))) (omega arith)
            ∙ (drop-suc (i + length p) c (g ++ (p ++ t)) ∙ left),
      )
]
