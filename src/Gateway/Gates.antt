-- ===== src/Gateway/Gates.antt =====
-- The gates of the request handler of main.go. A gate takes what the handler does behind it.
use netgoat.Prelude.{
  ℕ, ◌+◌, ◌-◌, Bool, false, not, ◌&&◌, Option, none, some, [], ◌++◌, if◌then◌else◌, ◌==◌, nat_eq,
}
use netgoat.Std.Text.{Bytes, bytes_eq, codes, contains}
use netgoat.Traffic.Limiter.{allow_at}
use netgoat.Challenge.Store.{is_verified}
use netgoat.Metrics.Recorder.{record_blocked}
use netgoat.Waf.Engine.{check as check_waf}
use netgoat.Auth.Check.{AuthResult, require_zero_trust_challenge, check as check_auth}
use netgoat.Agent.Sharing.{header_get}
use netgoat.Gateway.Request.{
  Request, credentials, waf_request, get_client_ip, rate_limit_key, zero_trust_challenge_binding,
  if_empty, feature_csv, honeypot_check,
}
use netgoat.Gateway.Pages.{Page, write_error, write_zero_trust_challenge}
use netgoat.Gateway.World.{
  World, Site, unlimited, admitted, queue_full, queue_timeout, Predict, Moment, Answer, to_login,
  refused, blocked, decoy, Handler, on_metrics, is_zero_trust_enabled,
}

module _ (w : World) (site : Site w) (m : Moment) (r : Request) where
  unfoldable pub client : Bytes
  client = get_client_ip w.netip site.trusted r

  -- `writeError` as the end of the handler.
  unfoldable pub error_page : ℕ → (Page → Answer) → Handler
  error_page at answer s =
      let (page, challenges) = write_error w.sum site.pages client r m.dice at s.challenges in
      (answer page, record s { challenges = challenges })

  unfoldable pub block : Bytes → ℕ → Handler
  block reason status s =
      error_page m.now (blocked reason status) (on_metrics (record_blocked reason) s)

  unfoldable pub accepts_json : Bool
  accepts_json = contains (header_get (codes "Accept") r.header) (codes "application/json")

  -- The second gate for a request whose user is known.
  unfoldable pub zero_trust_gate : AuthResult → Handler → Handler
  zero_trust_gate result behind s =
      let binding = zero_trust_challenge_binding client result in
      let (verified, challenges) = is_verified w.sum binding m.now s.challenges in
      let s' = record s { challenges = challenges } in
      if require_zero_trust_challenge result (is_zero_trust_enabled site.zero_trust_setting)
        verified
      then (let s'' = on_metrics (record_blocked (codes "zero-trust")) s' in
          let (page, challenges') =
            write_zero_trust_challenge w.sum binding r m.dice m.now s''.challenges in
          (blocked (codes "zero-trust") 403 page, record s'' { challenges = challenges' }))
      else behind s'

  unfoldable pub auth_result : AuthResult
  auth_result = check_auth w.compare_hash (credentials r) m.seconds site.users

  unfoldable pub auth_gate : Handler → Handler
  auth_gate behind s =
      if not site.auth_enabled
      then behind s
      else if not auth_result.authenticated
      then (if accepts_json then error_page m.now (refused 401) s else (to_login, s))
      else zero_trust_gate auth_result behind s

  unfoldable pub honeypot_gate : Handler → Handler
  honeypot_gate behind s = if site.honeypot && honeypot_check r.path then (decoy, s) else behind s

  unfoldable pub rate_gate : Handler → Handler
  rate_gate behind s = elim s.limiter [
    | none ↦ behind s
    | some limiter ↦
        let (limiter', allowed) =
          allow_at (rate_limit_key w.netip site.trusted r site.rate_limit_key_mode) m.now limiter in
        let s' = record s { limiter = some limiter' } in
        if allowed then behind s' else block (codes "rate-limit") 429 s'
  ]

  -- The place that `Acquire` takes is given back when the handler returns.
  unfoldable pub queue_gate : Handler → Handler
  queue_gate behind s = elim m.queue [
    | unlimited ↦ behind s
    | admitted ↦
        let (answer, s') = behind (record s { running = s.running + 1 }) in
        (answer, record s' { running = s'.running - 1 })
    | queue_full ↦ block (codes "request-queue") 429 s
    | queue_timeout ↦ block (codes "request-queue") 503 s
  ]

  -- A detector that fails lets the request through.
  unfoldable pub is_detected : Bytes → Option Bytes → Bytes → Predict → Bool
  is_detected default none query_name predict = false
  is_detected default (some configured) query_name predict =
      let csv = feature_csv (if_empty configured default) query_name r in
      if csv == [] then false else elim (predict csv) [ none ↦ false | some b ↦ b ]

  unfoldable pub detector_gate : Bytes → Bool → Handler → Handler
  detector_gate reason detected behind s = if detected then block reason 403 s else behind s

  unfoldable pub waf_verdict : Bool × Bytes
  waf_verdict = check_waf w.vm site.rules (waf_request r)

  unfoldable pub waf_gate : Handler → Handler
  waf_gate behind s =
      if waf_verdict.0 then block (codes "waf:" ++ waf_verdict.1) 403 s else behind s
