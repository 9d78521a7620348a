-- ===== src/Gateway/Order.antt =====
-- Which gate of the request handler of main.go decides. README.md has the route before the firewall and
-- the firewall before the detectors; the order here is that of the code.
use netgoat.Prelude.{
  ◌≡◌, refl, ap, ◌∙◌, Bool, true, false, not, ◌&&◌, Bool-cases, inl, inr, Option, [], ◌∷◌,
  if◌then◌else◌, nat_eq,
}
use netgoat.Std.Text.{Bytes, bytes_eq, codes}
use netgoat.Traffic.Limiter.{RateLimiter}
use netgoat.Gateway.Request.{Request, honeypot_check}
use netgoat.Gateway.World.{
  World, Site, Moment, State, Answer, to_login, refused, Handler, on_metrics,
}
use netgoat.Gateway.Gates.{
  error_page, accepts_json, zero_trust_gate, auth_result, auth_gate, honeypot_gate, rate_gate,
  is_detected,
}
use netgoat.Gateway.Closed.{
  answer_gate, first_closed, lacks_login, unverified, exceeds_rate, closed_gates, Always,
  route_gate-Always, waf_gate-Always, detector_gate-Always, queue_gate-Always, rate_gate-Always,
}
use netgoat.Gateway.Handler.{detector_gates, gates, handle}
use netgoat.Metrics.Recorder.{record_request}

module _ (w : World) (site : Site w) (m : Moment) (r : Request) where
  -- What stands behind the gates before the limiter finds it as it was.
  abbrev Within : Option RateLimiter → Handler → Bytes → Type 0
  Within limiter k name = (s : State) → s.limiter ≡ limiter → answer_gate (k s).0 ≡ name

  honeypot_gate-Within :
      (limiter : Option RateLimiter) (k : Handler) (name : Bytes)
      → Within limiter k name
      → Within limiter
          (honeypot_gate w site m r k)
          (if site.honeypot && honeypot_check r.path then codes "honeypot" else name)
  unfolding honeypot_gate
  honeypot_gate-Within limiter k name h s same =
      elim (Bool-cases (site.honeypot && honeypot_check r.path)) [
        | inl caught ↦ rw (caught, honeypot_gate) refl
        | inr free ↦ rw (free, honeypot_gate) (h s same)
      ]

  zero_trust_gate-Within :
      (k : Handler) (name : Bytes) (s : State)
      → Within s.limiter k name
      → answer_gate (zero_trust_gate w site m r (auth_result w site m r) k s).0
        ≡ (if unverified w site m r s then codes "zero-trust" else name)
  unfolding zero_trust_gate
  zero_trust_gate-Within k name s h = elim (Bool-cases (unverified w site m r s)) [
    | inl needed ↦ rw (needed, zero_trust_gate) refl
    | inr passed ↦ rw (passed, zero_trust_gate) (h _ refl)
  ]

  auth_gate_choice :
      (enabled known json needed : Bool) (free page login behind : Answer × State) (name : Bytes)
      → answer_gate free.0 ≡ name
      → answer_gate page.0 ≡ codes "login"
      → answer_gate login.0 ≡ codes "login"
      → answer_gate behind.0 ≡ (if needed then codes "zero-trust" else name)
      → answer_gate
          (if not enabled
            then free
            else if not known
            then (if json then page else login)
            else behind).0
        ≡ (if enabled && not known
            then codes "login"
            else if enabled && needed
            then codes "zero-trust"
            else name)
  auth_gate_choice false known json needed free page login behind name f p l b = f
  auth_gate_choice true true json needed free page login behind name f p l b = b
  auth_gate_choice true false true needed free page login behind name f p l b = p
  auth_gate_choice true false false needed free page login behind name f p l b = l

  auth_gate-Within :
      (k : Handler) (name : Bytes) (s : State)
      → Within s.limiter k name
      → answer_gate (auth_gate w site m r k s).0 ≡ (
          if lacks_login w site m r
          then codes "login"
          else if site.auth_enabled && unverified w site m r s
          then codes "zero-trust"
          else name)
  unfolding auth_gate error_page
  auth_gate-Within k name s h =
      auth_gate_choice site.auth_enabled (auth_result w site m r).authenticated
        (accepts_json w site m r) (unverified w site m r s) (k s)
        (error_page w site m r m.now (refused 401) s) (to_login, s)
        (zero_trust_gate w site m r (auth_result w site m r) k s) name (h s refl) refl refl
        (zero_trust_gate-Within k name s h)

  detector_gates-Always :
      (k : Handler) (name : Bytes)
      → Always w site m r k name
      → Always w site m r (detector_gates w site m r k) (
          first_closed (
            (
              is_detected w site m r
                  (codes "X-KodaWaf-Features")
                  site.koda_waf
                  (codes "kodawaf")
                  m.koda_waf_predict,
              codes "koda-waf",
            )
            ∷ (
              is_detected w site m r
                  (codes "X-GoatAI-Features")
                  site.anomaly
                  (codes "goatai")
                  m.anomaly_predict,
              codes "goatai",
            )
            ∷ (
              is_detected w site m r
                  (codes "X-Koda2-Features")
                  site.koda2
                  (codes "koda2")
                  m.koda2_predict,
              codes "koda-2",
            )
            ∷ (true, name)
            ∷ []))
  unfolding detector_gates
  detector_gates-Always k name h =
      detector_gate-Always w site m r _ _ _ _
        (detector_gate-Always w site m r _ _ _ _ (detector_gate-Always w site m r _ _ _ _ h))

  rate_gate-Within :
      (limiter : Option RateLimiter) (k : Handler) (name : Bytes)
      → Always w site m r k name
      → Within limiter
          (rate_gate w site m r k)
          (if exceeds_rate w site m r limiter then codes "rate-limit" else name)
  rate_gate-Within limiter k name h s same =
      rate_gate-Always w site m r k name h s
      ∙ ap (λ l. if exceeds_rate w site m r l then codes "rate-limit" else name) same

  gates-first_closed :
      (s : State) → answer_gate (gates w site m r s).0 ≡ first_closed (closed_gates w site m r s)
  unfolding gates
  gates-first_closed s = auth_gate-Within _ _ s (
      honeypot_gate-Within s.limiter _ _ (
        rate_gate-Within s.limiter _ _ (
          queue_gate-Always w site m r _ _ (
            detector_gates-Always _ _
              (waf_gate-Always w site m r _ _ (route_gate-Always w site m r))))))

  -- A request is answered by the first gate that is closed to it, in the order login, zero trust,
  -- honeypot, rate limit, queue, the three detectors, firewall and route, each judged on the state
  -- before the request; and by the cache or an upstream exactly when every gate is open.
  pub handle-first_closed :
      (s : State) → answer_gate (handle w site m r s).0 ≡ first_closed (closed_gates w site m r s)
  unfolding handle
  handle-first_closed s = gates-first_closed (on_metrics record_request s)
