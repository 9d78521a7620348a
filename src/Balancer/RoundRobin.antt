-- ===== src/Balancer/RoundRobin.antt =====
-- What `Pick` of internal/balancer/balancer.go returns, once and over a run of requests.
use netgoat.Prelude.{
  ℕ, zero, suc, ◌+◌, ◌-◌, ◌*◌, ◌/◌, ◌%◌, ◌<◌, ◌≡◌, refl, ap, ◌∙◌, none, some, List, [], ◌∷◌, arith,
  length, get_elem?, get_elem?_total, get_elem?-lt, ◌⊎◌, inl, inr, All, All-get_elem?, true,
}
use native.Mathlib.Nat.{
  div-add-mod, add-mod-mod, mul-add-mod_self_left, add-mod_right, mod-eq_of_lt,
}
use netgoat.Std.Dict.{lookup-insert}
use netgoat.Std.Text.{Bytes, bytes_eq, bytes_beq_refl}
use netgoat.Health.Worker.{Worker, is_healthy, healthy_targets}
use netgoat.Health.Run.{healthy_targets-is_healthy}
use netgoat.Balancer.Pick.{Balancer, uint64_mod, counter, pick_from, pick}

-- The balancer after `n` picks for a route, by requests that see the same healthy targets.
unfoldable pub after_picks : Worker → Bytes → List Bytes → ℕ → Balancer → Balancer
after_picks w key targets zero b = b
after_picks w key targets (suc n) b = (pick w key targets (after_picks w key targets n b)).0

module _ (key : Bytes) (h : Bytes) (hs : List Bytes) where
  counter-pick_from :
      (b : Balancer) → counter key (pick_from key (h ∷ hs) b).0 ≡ (counter key b + 1) % uint64_mod
  unfolding counter pick_from
  counter-pick_from b =
      ground (arith, lookup-insert key key ((counter key b + 1) % uint64_mod) b, bytes_beq_refl key)

  counter-after_picks :
      (w : Worker) (targets : List Bytes) (n : ℕ) (b : Balancer)
      → healthy_targets w targets ≡ h ∷ hs
      → counter key b + n < uint64_mod
      → counter key (after_picks w key targets n b) ≡ counter key b + n
  unfolding after_picks pick
  counter-after_picks w targets zero b e small = omega arith
  counter-after_picks w targets (suc n) b e small =
      let b' = after_picks w key targets n b in
      let before = counter-after_picks w targets n b e (omega arith) in
      ap (λ l. counter key (pick_from key l b').0) e
      ∙ (counter-pick_from b' ∙ omega (arith, before, small))

  -- The pick that follows `n` others.
  pick-after_picks :
      (w : Worker) (targets : List Bytes) (n : ℕ) (b : Balancer)
      → healthy_targets w targets ≡ h ∷ hs
      → counter key b + n < uint64_mod
      → (pick w key targets (after_picks w key targets n b)).1
        ≡ get_elem? (h ∷ hs) ((counter key b + n) % length (h ∷ hs))
  unfolding pick pick_from
  pick-after_picks w targets n b e small =
      let b' = after_picks w key targets n b in
      ap (λ l. (pick_from key l b').1) e
      ∙ ap (λ c. get_elem? (h ∷ hs) (c % length (h ∷ hs)))
          (counter-after_picks w targets n b e small)

-- How many picks pass before position `j` of `n` comes up at counter `c`.
turn : ℕ → ℕ → ℕ → ℕ
turn n c j = (j + n - c % n) % n

turn-lt : (n c j : ℕ) → 0 < n → turn n c j < n
unfolding turn
turn-lt n c j h = omega arith

mod-turn : (n c j : ℕ) → j < n → (c + turn n c j) % n ≡ j
unfolding turn
mod-turn n c j h =
    let q = div-add-mod c n in
    let small : c % n < n = omega (arith, h) in
    let apart : c + (j + n - c % n) ≡ n * (c / n) + (j + n) = omega (arith, q, small) in
    add-mod-mod c (j + n - c % n) n
    ∙ ap (λ x. x % n) apart
    ∙ mul-add-mod_self_left n (c / n) (j + n)
    ∙ add-mod_right j n
    ∙ mod-eq_of_lt h

-- No healthy target starves: as long as the health of the targets of a route does not change and
-- its counter does not wrap, each healthy target is returned within as many requests as there are
-- healthy targets.
pub pick_fair :
    (w : Worker) (key : Bytes) (targets : List Bytes) (b : Balancer) (j : ℕ) (t : Bytes)
    → get_elem? (healthy_targets w targets) j ≡ some t
    → counter key b + length (healthy_targets w targets) < uint64_mod
    → (i : ℕ) × (i < length (healthy_targets w targets))
      × ((pick w key targets (after_picks w key targets i b)).1 ≡ some t)
pick_fair w key targets b j t at small = go (healthy_targets w targets) refl at small
  where
    go :
        (l : List Bytes)
        → healthy_targets w targets ≡ l
        → get_elem? l j ≡ some t
        → counter key b + length l < uint64_mod
        → (i : ℕ) × (i < length l)
          × ((pick w key targets (after_picks w key targets i b)).1 ≡ some t)
    go [] e at small = cc
    go (h ∷ hs) e at small =
        let i = turn (length (h ∷ hs)) (counter key b) j in
        let soon = turn-lt (length (h ∷ hs)) (counter key b) j (omega arith) in
        (
          i,
          soon,
          pick-after_picks key h hs w targets i b e (omega (arith, soon, small))
              ∙ (ap (get_elem? (h ∷ hs))
                    (mod-turn (length (h ∷ hs)) (counter key b) j (get_elem?-lt (h ∷ hs) j t at))
                  ∙ at),
        )

pick_from_healthy :
    (w : Worker) (key : Bytes) (b : Balancer) (h : Bytes) (hs : List Bytes)
    → All (λ u. is_healthy w u ≡ true) (h ∷ hs)
    → (t : Bytes) × ((pick_from key (h ∷ hs) b).1 ≡ some t) × (is_healthy w t ≡ true)
unfolding pick_from
pick_from_healthy w key b h hs good =
    let i = counter key b % length (h ∷ hs) in
    let (t, at) = get_elem?_total (h ∷ hs) i (omega arith) in
    (t, at, All-get_elem? (λ u. is_healthy w u ≡ true) (h ∷ hs) i t good at)

-- `Pick` fails exactly if no target is healthy; otherwise it returns a healthy one.
pick_total :
    (w : Worker) (key : Bytes) (targets : List Bytes) (b : Balancer)
    → ((healthy_targets w targets ≡ []) × ((pick w key targets b).1 ≡ none))
      ⊎ ((t : Bytes) × ((pick w key targets b).1 ≡ some t) × (is_healthy w t ≡ true))
unfolding pick
pick_total w key targets b = go (healthy_targets w targets) (healthy_targets-is_healthy w targets)
  where
    go :
        (l : List Bytes)
        → All (λ u. is_healthy w u ≡ true) l
        → ((l ≡ []) × ((pick_from key l b).1 ≡ none))
          ⊎ ((t : Bytes) × ((pick_from key l b).1 ≡ some t) × (is_healthy w t ≡ true))
    go [] good = inl (refl, unfold pick_from in refl)
    go (h ∷ hs) good = inr (pick_from_healthy w key b h hs good)
