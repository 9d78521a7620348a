-- ===== src/Balancer/Failover.antt =====
-- What `ProxyHandler.Serve` of internal/balancer/balancer.go does with a request, over all of its
-- rounds.
use netgoat.Prelude.{
  ℕ, zero, suc, ◌+◌, ◌≤◌, ◌<◌, ◌≡◌, refl, ap, Bool, true, false, not, ◌&&◌, List, ◌∷◌,
  if◌then◌else◌, ltb, length, arith, Option, none, some, Bool-cases, inl, inr, ◌⊎◌,
}
use netgoat.Std.Text.{Bytes}
use netgoat.Balancer.Pick.{Balancer, pick}
use netgoat.Balancer.Stream.{Call}
use netgoat.Balancer.Phase.{body_of, statuses}
use netgoat.Balancer.Lines.{lines}
use netgoat.Balancer.Fresh.{IsFresh, pick-IsFresh}
use netgoat.Balancer.Attempts.{AnswersPlainly, IsUnsent, IsAnswer, Ends, attempt_round-Ends}
use netgoat.Balancer.Serve.{
  Request, is_failover_safe_method, request_has_body, Env, proxied, Outcome, not_tried, Round,
  return, retry, attempt_round, Error, no_healthy_targets, last_error, give_up, Next, done,
  continue, after_round, try_target, serve_step, serve_loop, started, serve,
}

-- `Serve` reports an error and nothing has reached the client, or it reports none and what the last
-- target tried has answered has reached it.
unfoldable pub Settles : Env → Outcome → Type 0
Settles env o =
    ((err : Error) × (o.error ≡ some err) × IsUnsent o.sent)
    ⊎ ((o.error ≡ none)
        × ((t : Bytes) × (ts : List Bytes) × (calls : List Call) × (o.tried ≡ t ∷ ts)
            × (env.attempt (length ts) t ≡ proxied calls false)
            × IsAnswer calls o.sent))

module _ (env : Env) (early : AnswersPlainly env) (safe : Bool) (key : Bytes)
    (targets : List Bytes) where
  -- What holds before a round, and after it.
  abbrev Live : Outcome → Type 0
  Live o =
      IsFresh env targets o.tried
      × IsUnsent o.sent
      × (length o.tried ≤ (if safe then length targets else 0))

  abbrev Goal : Outcome → Type 0
  Goal o =
      IsFresh env targets o.tried
      × Settles env o
      × (length o.tried ≤ (if safe then length targets else 1))

  abbrev After : ℕ → Next → Type 0
  After k (done o) = Goal o
  After k (continue o) = Live o × (length o.tried ≡ suc k)

  after_round_lem :
      (o : Outcome) (t : Bytes) (ts : List Bytes) (r : Round)
      → o.tried ≡ t ∷ ts
      → length ts < length targets
      → length ts ≤ (if safe then length targets else 0)
      → IsFresh env targets o.tried
      → Ends safe (env.attempt (length ts) t) r
      → After (length ts) (after_round o r)
  unfolding after_round Settles Ends
  after_round_lem o t ts (return sent none) is few few' fresh (calls, e, answer) =
      (fresh, inr (refl, (t, ts, calls, is, e, answer)), ground (arith, ap length is, few, few'))
  after_round_lem o t ts (return sent (some err)) is few few' fresh unsent =
      (fresh, inl (err, refl, unsent), ground (arith, ap length is, few, few'))
  after_round_lem o t ts (retry sent err) is few few' fresh (again, unsent) =
      ((fresh, unsent, ground (arith, ap length is, few, again)), ap length is)

  try_target_lem :
      (o : Outcome) (p : Balancer × Option Bytes)
      → ((t : Bytes) → p.1 ≡ some t → IsFresh env targets (t ∷ o.tried))
      → length o.tried < length targets
      → Live o
      → After (length o.tried) (try_target env safe o p)
  unfolding try_target
  try_target_lem o (b, none) fresh few (old, unsent, few') =
      unfold Settles in (old, inl (no_healthy_targets, refl, unsent), ground (arith, few'))
  try_target_lem o (b, some t) fresh few (old, unsent, few') =
      after_round_lem (record o { balancer = b; tried = t ∷ o.tried }) t o.tried
        (attempt_round safe o.sent (env.attempt (length o.tried) t)) refl few few' (fresh t refl)
        (attempt_round-Ends safe (env.attempt (length o.tried) t) o.sent (early (length o.tried) t)
          unsent)

  serve_step_lem :
      (o : Outcome) → Live o → After (length o.tried) (serve_step env safe key targets o)
  unfolding serve_step
  serve_step_lem o live =
      let k = length o.tried in
      elim (Bool-cases (ltb k (length targets) && ltb 0 (length (not_tried o.tried targets)))) [
        | inl e ↦ rw e (
            try_target_lem o
              (pick (env.health k) key (not_tried o.tried targets) (env.others k o.balancer))
              (λ t picked.
                pick-IsFresh env key targets o.tried (env.others k o.balancer) t picked (live.0))
              (ground (arith, e)) live)
        | inr e ↦ rw e (
            unfold Settles give_up in
            (live.0, inl (last_error o.error, refl, live.1), ground (arith, live.2)))
      ]

  serve_loop_lem :
      (fuel : ℕ) (o : Outcome)
      → Live o
      → length targets < fuel + length o.tried
      → (o' : Outcome) × (serve_loop env safe key targets fuel o ≡ some o') × Goal o'
  unfolding serve_loop
  serve_loop_lem zero o live enough = absurd (let (_, _, few) = live in ground (arith, few, enough))
  serve_loop_lem (suc fuel) o live enough =
      go (λ o' live' enough'. serve_loop_lem fuel o' live' enough')
        (serve_step env safe key targets o) (serve_step_lem o live)
    where
      go :
          ((o' : Outcome)
            → Live o'
            → length targets < fuel + length o'.tried
            → (o'' : Outcome) × (serve_loop env safe key targets fuel o' ≡ some o'') × Goal o'')
          → (n : Next) → After (length o.tried) n
          → (o' : Outcome) × ((elim n [
            | done o'' ↦ some o''
            | continue o'' ↦ serve_loop env safe key targets fuel o''
          ])
              ≡ some o')
            × Goal o'
      go rec (done o') h = (o', refl, h)
      go rec (continue o') h = let (live', more) = h in rec o' live' (omega (arith, more, enough))

-- `Serve` always returns. It tries only targets of the route that are healthy at that moment, none
-- of them twice, and no second one for a request that is not safe to repeat. Either it reports an
-- error and nothing of a response has reached the client, or it reports none and the client has
-- got the answer of the last target tried: its final status, once, its whole body and its header
-- lines, and nothing else. This is for upstreams that send no informational (1xx) response and switch
-- no protocol, and of which ReverseProxy reports errors only before a response.
pub serve-Settles :
    (env : Env) (key : Bytes) (targets : List Bytes) (r : Request) (b : Balancer)
    → AnswersPlainly env
    → (o : Outcome) × (serve env key targets r b ≡ some o)
      × IsFresh env targets o.tried
      × Settles env o
      × (length o.tried ≤ (
          if is_failover_safe_method r.method && not (request_has_body r)
          then length targets
          else 1))
unfolding serve started IsFresh IsUnsent body_of statuses lines Settles
serve-Settles env key targets r b early =
    go (is_failover_safe_method r.method && not (request_has_body r))
      (Bool-cases (ltb 0 (length targets)))
  where
    go :
        (safe : Bool)
        → (ltb 0 (length targets) ≡ true) ⊎ (ltb 0 (length targets) ≡ false)
        → (o : Outcome) × ((if ltb 0 (length targets)
              then serve_loop env safe key targets (length targets + 1) (started b)
              else some (record (started b) { error = some no_healthy_targets }))
            ≡ some o)
          × IsFresh env targets o.tried
          × Settles env o
          × (length o.tried ≤ (if safe then length targets else 1))
    go safe (inl e) =
        let (o, ends, (fresh, settled, few)) =
          serve_loop_lem env early safe key targets (length targets + 1) (started b)
            (tt, (refl, refl, refl), omega arith) (omega arith) in
        rw e (o, ends, fresh, settled, few)
    go safe (inr e) = rw e (
      record (started b) { error = some no_healthy_targets },
      refl,
      tt,
      inl (no_healthy_targets, refl, (refl, refl, refl)),
      omega arith,
    )
