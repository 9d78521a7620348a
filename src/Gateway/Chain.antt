-- ===== src/Gateway/Chain.antt =====
-- What holds of every way through the gates of the request handler of main.go, if it holds of each
-- answer and does not see what the gates change on the way.
use netgoat.Prelude.{
  ℕ, ◌+◌, ◌-◌, ◌≡◌, refl, Bool, true, false, not, ◌&&◌, Bool-cases, inl, inr, some, Option-cases,
  if◌then◌else◌, nat_eq, ltb, length,
}
use netgoat.Std.Text.{Bytes, bytes_eq, codes}
use netgoat.Traffic.Limiter.{allow_at}
use netgoat.Routes.Resolve.{RouteMatch}
use netgoat.Metrics.Recorder.{record_blocked}
use netgoat.Auth.Check.{require_zero_trust_challenge}
use netgoat.Challenge.Store.{Store, is_verified}
use netgoat.Gateway.Request.{Request, rate_limit_key, zero_trust_challenge_binding, honeypot_check}
use netgoat.Gateway.Pages.{Page}
use netgoat.Gateway.World.{
  World, Site, QueueOutcome-cases, Moment, State, Answer, to_login, refused, blocked, decoy,
  Handler, on_metrics, is_zero_trust_enabled,
}
use netgoat.Gateway.Gates.{
  client, error_page, block, accepts_json, zero_trust_gate, auth_result, auth_gate, honeypot_gate,
  rate_gate, queue_gate, detector_gate, waf_gate,
}
use netgoat.Gateway.Forward.{cache_gate, route_of_request, route_gate}
use netgoat.Gateway.Handler.{detector_gates, gates}

module _ (w : World) (site : Site w) (m : Moment) (r : Request) where
  -- A relation between the state before, and the answer and the state after.
  pub record Laws (P : State → Answer × State → Type 0) : Type 0 where
    -- The limiter and the challenges are not seen.
    pub unseen :
        (s t : State) (x : Answer × State)
        → t.metrics ≡ s.metrics
        → t.running ≡ s.running
        → t.cache ≡ s.cache
        → P t x
        → P s x
    pub refuses : (status : ℕ) (s : State) → P s (error_page w site m r m.now (refused status) s)
    pub blocks : (reason : Bytes) (status : ℕ) (s : State) → P s (block w site m r reason status s)
    pub logins : (s : State) → P s (to_login, s)
    pub decoys : (s : State) → P s (decoy, s)
    pub challenges :
        (s : State) (page : Page) (c : Store)
        → P s (
          blocked (codes "zero-trust") 403 page,
          record (on_metrics (record_blocked (codes "zero-trust")) s) { challenges = c },
        )
    -- A place of the queue is taken and given back.
    pub place :
        (s : State) (x : Answer × State)
        → P (record s { running = s.running + 1 }) x
        → P s (x.0, record (x.1) { running = x.1.running - 1 })
    pub forwards : (found : RouteMatch) (s : State) → P s (cache_gate w site m r found s)

  module _ (P : State → Answer × State → Type 0) (laws : Laws P) where
    abbrev Law : Handler → Type 0
    Law k = (s : State) → P s (k s)

    route_gate-Law : Law (route_gate w site m r)
    unfolding route_gate
    route_gate-Law s = elim (Option-cases (route_of_request w site m r)) [
      | inl absent ↦ rw (absent, route_gate) (laws.refuses 404 s)
      | inr (found, resolved) ↦ elim (Bool-cases (ltb 0 (length found.match_targets))) [
        | inl some_target ↦ rw (resolved, some_target, route_gate) (laws.forwards found s)
        | inr no_target ↦ rw (resolved, no_target, route_gate) (laws.refuses 404 s)
      ]
    ]

    if-Law :
        (b : Bool) (s : State) (x y : Answer × State) → P s x → P s y → P s (if b then x else y)
    if-Law true s x y hx hy = hx
    if-Law false s x y hx hy = hy

    waf_gate-Law : (k : Handler) → Law k → Law (waf_gate w site m r k)
    unfolding waf_gate
    waf_gate-Law k h s = if-Law _ s _ _ (laws.blocks _ 403 s) (h s)

    detector_gate-Law :
        (reason : Bytes) (detected : Bool) (k : Handler)
        → Law k
        → Law (detector_gate w site m r reason detected k)
    unfolding detector_gate
    detector_gate-Law reason detected k h s = if-Law detected s _ _ (laws.blocks reason 403 s) (h s)

    detector_gates-Law : (k : Handler) → Law k → Law (detector_gates w site m r k)
    unfolding detector_gates
    detector_gates-Law k h =
        detector_gate-Law _ _ _ (detector_gate-Law _ _ _ (detector_gate-Law _ _ _ h))

    queue_gate-Law : (k : Handler) → Law k → Law (queue_gate w site m r k)
    unfolding queue_gate
    queue_gate-Law k h s = elim (QueueOutcome-cases m.queue) [
      | inl (inl free) ↦ rw (free, queue_gate) (h s)
      | inl (inr place) ↦
          rw (place, queue_gate) (laws.place s (k (record s { running = s.running + 1 })) (h _))
      | inr (inl full) ↦ rw (full, queue_gate) (laws.blocks _ 429 s)
      | inr (inr late) ↦ rw (late, queue_gate) (laws.blocks _ 503 s)
    ]

    rate_gate-Law : (k : Handler) → Law k → Law (rate_gate w site m r k)
    unfolding rate_gate
    rate_gate-Law k h s = elim (Option-cases s.limiter) [
      | inl off ↦ rw (off, rate_gate) (laws.unseen _ s _ refl refl refl (h s))
      | inr (limiter, on) ↦
          let key = rate_limit_key w.netip site.trusted r site.rate_limit_key_mode in
          let s' : State = record s { limiter = some (allow_at key m.now limiter).0 } in
          rw (on, rate_gate)
            (laws.unseen _ s' _ refl refl refl (
              if-Law (allow_at key m.now limiter).1 s' _ _ (h s')
                (laws.blocks (codes "rate-limit") 429 s')))
    ]

    honeypot_gate-Law : (k : Handler) → Law k → Law (honeypot_gate w site m r k)
    unfolding honeypot_gate
    honeypot_gate-Law k h s =
        if-Law (site.honeypot && honeypot_check r.path) s (decoy, s) (k s) (laws.decoys s) (h s)

    zero_trust_gate-Law :
        (k : Handler) → Law k → Law (zero_trust_gate w site m r (auth_result w site m r) k)
    unfolding zero_trust_gate
    zero_trust_gate-Law k h s =
        elim (Bool-cases (
          require_zero_trust_challenge (auth_result w site m r)
            (is_zero_trust_enabled site.zero_trust_setting)
            (is_verified w.sum
              (zero_trust_challenge_binding (client w site m r) (auth_result w site m r)) m.now
              s.challenges).0)) [
                | inl needed ↦ rw (needed, zero_trust_gate) (laws.challenges s _ _)
                | inr passed ↦ rw (passed, zero_trust_gate) (laws.unseen _ _ _ refl refl refl (h _))
              ]

    auth_gate-Law : (k : Handler) → Law k → Law (auth_gate w site m r k)
    unfolding auth_gate
    auth_gate-Law k h s = if-Law (not site.auth_enabled) s _ _ (h s) (
        if-Law (not (auth_result w site m r).authenticated) s _ _
          (if-Law (accepts_json w site m r) s _ _ (laws.refuses 401 s) (laws.logins s))
          (zero_trust_gate-Law k h s))

    pub gates-Law : Law (gates w site m r)
    unfolding gates
    gates-Law = auth_gate-Law _ (
        honeypot_gate-Law _ (
          rate_gate-Law _
            (queue_gate-Law _ (detector_gates-Law _ (waf_gate-Law _ route_gate-Law)))))
