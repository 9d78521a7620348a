-- ===== src/Balancer/Fresh.antt =====
-- Which targets `ProxyHandler.Serve` of internal/balancer/balancer.go tries.
use netgoat.Prelude.{
  ◌%◌, ◌≡◌, refl, true, false, List, [], ◌∷◌, length, arith, some, Bool-cases, inl, inr, All,
  All-get_elem?,
}
use mathlib.Core.List.{}
use netgoat.Std.Text.{Bytes, bytes_eq, bytes_beq_iff}
use netgoat.Health.Worker.{Worker, is_healthy, healthy_targets}
use netgoat.Balancer.Pick.{Balancer, counter, pick_from, pick}
use netgoat.Balancer.Stream.{}
use netgoat.Balancer.Phase.{}
use netgoat.Balancer.Serve.{Env, mem, not_tried}

-- The targets tried, the last one first: each is a target of the route, none is tried twice, and
-- each was healthy when it was picked.
unfoldable pub IsFresh : Env → List Bytes → List Bytes → Type 0
IsFresh env targets [] = Unit
IsFresh env targets (t ∷ ts) =
    (mem t targets ≡ true)
    × (mem t ts ≡ false)
    × (is_healthy (env.health (length ts)) t ≡ true)
    × IsFresh env targets ts

All-mem : (targets : List Bytes) → All (λ u. mem u targets ≡ true) targets
unfolding mem
All-mem targets = go targets (λ u h. h)
  where
    go :
        (l : List Bytes)
        → ((u : Bytes) → mem u l ≡ true → mem u targets ≡ true)
        → All (λ u. mem u targets ≡ true) l
    go [] f = tt
    go (u ∷ l) f =
        (f u (ground (arith, (bytes_beq_iff u u).1 refl)), go l (λ v h. f v (ground (arith, h))))

All-not_tried :
    (tried targets l : List Bytes)
    → All (λ u. mem u targets ≡ true) l
    → All (λ u. (mem u targets ≡ true) × (mem u tried ≡ false)) (not_tried tried l)
unfolding not_tried
All-not_tried tried targets [] h = tt
All-not_tried tried targets (t ∷ l) (p, h) = elim (Bool-cases (mem t tried)) [
  | inl e ↦ rw e (All-not_tried tried targets l h)
  | inr e ↦ rw e ((p, e), All-not_tried tried targets l h)
]

module _ {κ} (P : Bytes → Type κ) (w : Worker) where
  All-healthy_targets :
      (l : List Bytes) → All P l → All (λ u. P u × (is_healthy w u ≡ true)) (healthy_targets w l)
  unfolding healthy_targets
  All-healthy_targets [] h = tt
  All-healthy_targets (t ∷ l) (p, h) = elim (Bool-cases (is_healthy w t)) [
    | inl e ↦ rw e ((p, e), All-healthy_targets l h)
    | inr e ↦ rw e (All-healthy_targets l h)
  ]

  pick_from_All :
      (key : Bytes) (l : List Bytes) (b : Balancer) (t : Bytes)
      → All P l
      → (pick_from key l b).1 ≡ some t
      → P t
  unfolding pick_from
  pick_from_All key [] b t h e = cc
  pick_from_All key (x ∷ l) b t h e = All-get_elem? P (x ∷ l) (counter key b % length (x ∷ l)) t h e

pub pick-IsFresh :
    (env : Env) (key : Bytes) (targets tried : List Bytes) (b : Balancer) (t : Bytes)
    → (pick (env.health (length tried)) key (not_tried tried targets) b).1 ≡ some t
    → IsFresh env targets tried
    → IsFresh env targets (t ∷ tried)
unfolding pick IsFresh
pick-IsFresh env key targets tried b t e fresh =
    let w = env.health (length tried) in
    let New : Bytes → Type 0 = λ u. (mem u targets ≡ true) × (mem u tried ≡ false) in
    let good =
      All-healthy_targets New w (not_tried tried targets)
        (All-not_tried tried targets targets (All-mem targets)) in
    let ((there, new), up) =
      pick_from_All (λ u. New u × (is_healthy w u ≡ true)) w key
        (healthy_targets w (not_tried tried targets)) b t good e in
    (there, new, up, fresh)
