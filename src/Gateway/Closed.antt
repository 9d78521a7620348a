-- ===== src/Gateway/Closed.antt =====
-- The gates of the request handler of main.go that are closed to a request, and what each gate
-- makes of the answer behind it.
use netgoat.Prelude.{
  ◌+◌, ◌≡◌, refl, Bool, true, false, not, ◌&&◌, Bool-cases, inl, inr, Option, none, some,
  Option-cases, List, [], ◌∷◌, ◌++◌, if◌then◌else◌, ◌==◌, nat_eq, ltb, length,
}
use netgoat.Std.Text.{Bytes, bytes_eq, codes}
use netgoat.Traffic.Limiter.{RateLimiter, allow_at}
use netgoat.Routes.Resolve.{RouteMatch}
use netgoat.Challenge.Store.{is_verified}
use netgoat.Auth.Check.{require_zero_trust_challenge}
use netgoat.Cache.Store.{get}
use netgoat.Gateway.Request.{Request, rate_limit_key, zero_trust_challenge_binding, honeypot_check}
use netgoat.Agent.Sharing.{is_request_cacheable_for_shared_store}
use netgoat.Gateway.Request.{cache_key}
use netgoat.Gateway.World.{
  World, Site, QueueOutcome, QueueOutcome-cases, unlimited, admitted, queue_full, queue_timeout,
  Proxied-cases, Moment, State, Answer, to_login, refused, blocked, decoy, replayed, served,
  unserved, Handler, is_zero_trust_enabled,
}
use netgoat.Gateway.Gates.{
  client, error_page, block, auth_result, rate_gate, queue_gate, is_detected, detector_gate,
  waf_verdict, waf_gate,
}
use netgoat.Gateway.Forward.{forward, upstream_of, cache_gate, route_of_request, route_gate}

-- The name of the gate that gave an answer, none for the cache and the upstream.
abbrev pub answer_gate : Answer → Bytes
answer_gate to_login = codes "login"
answer_gate (refused status page) = if status == 401 then codes "login" else codes "route"
answer_gate (blocked reason status page) = reason
answer_gate decoy = codes "honeypot"
answer_gate (replayed ent) = []
answer_gate (served res up) = []
answer_gate (unserved status err page up) = []

-- The first name whose gate is closed.
abbrev pub first_closed : List (Bool × Bytes) → Bytes
first_closed [] = []
first_closed ((is_closed, name) ∷ rest) = if is_closed then name else first_closed rest

abbrev pub is_refused : QueueOutcome → Bool
is_refused unlimited = false
is_refused admitted = false
is_refused queue_full = true
is_refused queue_timeout = true

abbrev pub has_no_target : Option RouteMatch → Bool
has_no_target none = true
has_no_target (some found) = not (ltb 0 (length found.match_targets))

module _ (w : World) (site : Site w) (m : Moment) (r : Request) where
  abbrev pub lacks_login : Bool
  lacks_login = site.auth_enabled && not (auth_result w site m r).authenticated

  abbrev pub unverified : State → Bool
  unverified s =
      require_zero_trust_challenge (auth_result w site m r)
        (is_zero_trust_enabled site.zero_trust_setting)
        (is_verified w.sum
          (zero_trust_challenge_binding (client w site m r) (auth_result w site m r)) m.now
          s.challenges).0

  abbrev pub exceeds_rate : Option RateLimiter → Bool
  exceeds_rate none = false
  exceeds_rate (some limiter) =
      not
        (allow_at (rate_limit_key w.netip site.trusted r site.rate_limit_key_mode) m.now limiter).1

  -- The gates that are closed to the request, in their order and on the state before it.
  abbrev pub closed_gates : State → List (Bool × Bytes)
  closed_gates s =
      (lacks_login, codes "login")
      ∷ (site.auth_enabled && unverified s, codes "zero-trust")
      ∷ (site.honeypot && honeypot_check r.path, codes "honeypot")
      ∷ (exceeds_rate s.limiter, codes "rate-limit")
      ∷ (is_refused m.queue, codes "request-queue")
      ∷ (
        is_detected w site m r (codes "X-KodaWaf-Features") site.koda_waf (codes "kodawaf")
            m.koda_waf_predict,
        codes "koda-waf",
      )
      ∷ (
        is_detected w site m r (codes "X-GoatAI-Features") site.anomaly (codes "goatai")
            m.anomaly_predict,
        codes "goatai",
      )
      ∷ (
        is_detected w site m r (codes "X-Koda2-Features") site.koda2 (codes "koda2")
            m.koda2_predict,
        codes "koda-2",
      )
      ∷ ((waf_verdict w site m r).0, codes "waf:" ++ (waf_verdict w site m r).1)
      ∷ (has_no_target (route_of_request w site m r), codes "route")
      ∷ []

  -- An answer by the gate of that name, on any state.
  abbrev pub Always : Handler → Bytes → Type 0
  Always k name = (s : State) → answer_gate (k s).0 ≡ name

  forward-Always :
      (found : RouteMatch) (cacheable : Bool) → Always (forward w site m r found cacheable) []
  unfolding error_page forward
  forward-Always found cacheable s = elim (Proxied-cases (m.proxy (upstream_of w site m r found))) [
    | inl (res, sent) ↦ rw (sent, forward) refl
    | inr (timeout, err, failed) ↦ rw (failed, forward) refl
  ]

  cache_gate-Always : (found : RouteMatch) → Always (cache_gate w site m r found) []
  unfolding cache_gate
  cache_gate-Always found s = elim (Option-cases s.cache) [
    | inl off ↦ rw (off, cache_gate) (forward-Always found false _)
    | inr (c, on) ↦ elim (Bool-cases (is_request_cacheable_for_shared_store r.method r.header)) [
      | inr other ↦ rw (on, other, cache_gate) (forward-Always found false _)
      | inl cacheable ↦ elim (Option-cases (get m.now (cache_key r) c).1) [
        | inl miss ↦ rw (on, cacheable, miss, cache_gate) (forward-Always found true _)
        | inr (ent, hit) ↦ rw (on, cacheable, hit, cache_gate) refl
      ]
    ]
  ]

  pub route_gate-Always :
      Always
        (route_gate w site m r)
        (if has_no_target (route_of_request w site m r) then codes "route" else [])
  unfolding error_page route_gate
  route_gate-Always s = elim (Option-cases (route_of_request w site m r)) [
    | inl absent ↦ rw (absent, route_gate) refl
    | inr (found, resolved) ↦ elim (Bool-cases (ltb 0 (length found.match_targets))) [
      | inl some_target ↦ rw (resolved, some_target, route_gate) (cache_gate-Always found _)
      | inr no_target ↦ rw (resolved, no_target, route_gate) refl
    ]
  ]

  pub waf_gate-Always :
      (k : Handler) (name : Bytes)
      → Always k name
      → Always
          (waf_gate w site m r k)
          (if (waf_verdict w site m r).0 then codes "waf:" ++ (waf_verdict w site m r).1 else name)
  unfolding block error_page waf_gate
  waf_gate-Always k name h s = elim (Bool-cases (waf_verdict w site m r).0) [
    | inl stop ↦ rw (stop, waf_gate) refl
    | inr go ↦ rw (go, waf_gate) (h s)
  ]

  pub detector_gate-Always :
      (reason : Bytes) (detected : Bool) (k : Handler) (name : Bytes)
      → Always k name
      → Always (detector_gate w site m r reason detected k) (if detected then reason else name)
  unfolding block error_page detector_gate
  detector_gate-Always reason true k name h s = refl
  detector_gate-Always reason false k name h s = h s

  pub queue_gate-Always :
      (k : Handler) (name : Bytes)
      → Always k name
      → Always
          (queue_gate w site m r k)
          (if is_refused m.queue then codes "request-queue" else name)
  unfolding block error_page queue_gate
  queue_gate-Always k name h s = elim (QueueOutcome-cases m.queue) [
    | inl (inl free) ↦ rw (free, queue_gate) (h s)
    | inl (inr place) ↦ rw (place, queue_gate) (h (record s { running = s.running + 1 }))
    | inr (inl full) ↦ rw (full, queue_gate) refl
    | inr (inr late) ↦ rw (late, queue_gate) refl
  ]

  pub rate_gate-Always :
      (k : Handler) (name : Bytes)
      → Always k name
      → (s : State)
      → answer_gate (rate_gate w site m r k s).0
        ≡ (if exceeds_rate s.limiter then codes "rate-limit" else name)
  unfolding block error_page rate_gate
  rate_gate-Always k name h s = elim (Option-cases s.limiter) [
    | inl off ↦ rw (off, rate_gate) (h _)
    | inr (limiter, on) ↦
        elim (Bool-cases
          (allow_at (rate_limit_key w.netip site.trusted r site.rate_limit_key_mode) m.now
            limiter).1) [
              | inl allowed ↦ rw (on, allowed, rate_gate) (h _)
              | inr denied ↦ rw (on, denied, rate_gate) refl
            ]
  ]
