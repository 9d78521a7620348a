-- ===== src/Gateway/Handler.antt =====
-- The handlers that main.go registers for every path and for the answers to challenges.
use netgoat.Prelude.{ℕ, Bool, not, ◌&&◌, Option, if◌then◌else◌, ◌==◌}
use netgoat.Std.Text.{Bytes, bytes_eq, codes}
use netgoat.Std.Url.{Values}
use netgoat.Challenge.Store.{verify, Store as ChallengeStore}
use netgoat.Metrics.Recorder.{record_request, record_response}
use netgoat.Auth.Check.{check}
use netgoat.Auth.Login.{form_value}
use netgoat.Agent.Sharing.{header_get}
use netgoat.Gateway.Request.{
  Request, Url, credentials, get_client_ip, zero_trust_challenge_binding, safe_local_redirect,
}
use netgoat.Gateway.World.{
  World, Site, Moment, Answer, to_login, refused, blocked, decoy, replayed, served, unserved,
  Handler, on_metrics,
}
use netgoat.Gateway.Gates.{
  auth_gate, honeypot_gate, rate_gate, queue_gate, is_detected, detector_gate, waf_gate,
}
use netgoat.Gateway.Forward.{route_gate}

-- What the metrics writer reports: the status of what the handler itself writes, or, once an upstream
-- has been asked, whatever went through the writer first.
unfoldable pub recorded_status : Moment → Answer → ℕ
recorded_status m to_login = 302
recorded_status m (refused status page) = status
recorded_status m (blocked reason status page) = status
recorded_status m decoy = 200
recorded_status m (replayed ent) = ent.status
recorded_status m (served res up) = m.first_status
recorded_status m (unserved status err page up) = m.first_status

module _ (w : World) (site : Site w) (m : Moment) (r : Request) where
  -- The three detectors, one after another.
  unfoldable pub detector_gates : Handler → Handler
  detector_gates behind =
      detector_gate w site m r (codes "koda-waf")
        (is_detected w site m r (codes "X-KodaWaf-Features") site.koda_waf (codes "kodawaf")
          m.koda_waf_predict)
        (detector_gate w site m r (codes "goatai")
          (is_detected w site m r (codes "X-GoatAI-Features") site.anomaly (codes "goatai")
            m.anomaly_predict)
          (detector_gate w site m r (codes "koda-2")
            (is_detected w site m r (codes "X-Koda2-Features") site.koda2 (codes "koda2")
              m.koda2_predict)
            behind))

  unfoldable pub gates : Handler
  gates = auth_gate w site m r (
      honeypot_gate w site m r (
        rate_gate w site m r
          (queue_gate w site m r (detector_gates (waf_gate w site m r (route_gate w site m r))))))

  -- The whole handler: the recorder counts the request first and the response last.
  unfoldable pub handle : Handler
  handle s =
      let (answer, s') = gates (on_metrics record_request s) in
      (
        answer,
        on_metrics (record_response m.done (recorded_status m answer) m.written m.duration) s',
      )

-- The answer to a challenge: a redirection, or an error of a status.
pub data VerifyResponse : Type 0 where
  redirected : Bytes → VerifyResponse
  verify_error : ℕ → VerifyResponse

module _ (w : World) (site : Site w) (now seconds : ℕ) (r : Request) where
  unfoldable pub challenge_binding : Bytes → Bytes
  challenge_binding ip =
      if site.auth_enabled
      then zero_trust_challenge_binding ip (check w.compare_hash (credentials r) seconds site.users)
      else ip

  -- A second try for a challenge that is bound to the address alone.
  unfoldable pub verify_bound : Bytes → Bytes → ChallengeStore → Bool × ChallengeStore
  verify_bound id answer s =
      let ip = get_client_ip w.netip site.trusted r in
      let binding = challenge_binding ip in
      let (verified, s') = verify w.sum id answer binding now s in
      if not verified && not (binding == ip)
      then verify w.sum id answer ip now s'
      else (verified, s')

  unfoldable pub handle_verify :
      (Bytes → Option Url) → Values → ChallengeStore → VerifyResponse × ChallengeStore
  handle_verify parse form s =
      if not (r.method == codes "POST")
      then (verify_error 405, s)
      else (let (verified, s') =
            verify_bound (form_value (codes "challenge_id") form) (form_value (codes "answer") form)
              s in
          if verified
          then (
            redirected (safe_local_redirect parse (header_get (codes "Referer") r.header) r.host),
            s',
          )
          else (verify_error 403, s'))
