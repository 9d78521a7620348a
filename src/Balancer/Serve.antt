-- ===== src/Balancer/Serve.antt =====
-- `ProxyHandler.Serve` of internal/balancer/balancer.go: the attempts at one request. What is not
-- the balancer's own is an argument: how the health of the upstreams stands and which picks of other
-- requests come in between, per round, and what ReverseProxy does with a target.
use netgoat.Prelude.{
  ℕ, zero, suc, ◌+◌, Bool, true, false, not, ◌&&◌, ◌||◌, List, [], ◌∷◌, if◌then◌else◌, ◌==◌, ltb,
  length, Option, none, some, ℤ, pos,
}
use netgoat.Std.Text.{Bytes, bytes_eq, codes}
use netgoat.Health.Worker.{Worker}
use netgoat.Balancer.Pick.{Balancer, pick}
use netgoat.Balancer.Stream.{
  Call, Sent, StreamWriter, attempt_writer, max_retry_response_bytes, on_calls, flush_retry_to,
}

-- What is read of the request. `has_body` is whether `Body` is neither nil nor NoBody.
pub record Request : Type 0 where
  pub method : Bytes
  pub has_body : Bool
  pub content_length : ℤ
  pub transfer_encoding : List Bytes

unfoldable pub is_failover_safe_method : Bytes → Bool
is_failover_safe_method method =
    method == codes "GET"
    || method == codes "HEAD"
    || method == codes "OPTIONS"
    || method == codes "TRACE"

unfoldable pub is_zero : ℤ → Bool
is_zero (pos zero) = true
is_zero _ = false

unfoldable pub request_has_body : Request → Bool
request_has_body r =
    if not r.has_body
    then false
    else not (is_zero r.content_length) || ltb 0 (length r.transfer_encoding)

pub data Error : Type 0 where
  no_healthy_targets : Error
  invalid_target : Error
  proxy_failed : Error
  upstream_returned : ℕ → Error

-- An attempt at a target: its URL does not parse, or ReverseProxy makes these calls on the writer
-- and, if the flag is set, then reports an error to `ErrorHandler`.
pub data Attempt : Type 0 where
  invalid_url : Attempt
  proxied : List Call → Bool → Attempt

pub record Env : Type 0 where
  pub health : ℕ → Worker
  pub others : ℕ → Balancer → Balancer
  pub attempt : ℕ → Bytes → Attempt

-- What `Serve` did: the calls of the client's writer, the targets tried, the last one first, the
-- balancer, and the error that it returned.
pub record Outcome : Type 0 where
  pub sent : List Sent
  pub tried : List Bytes
  pub balancer : Balancer
  pub error : Option Error

unfoldable pub mem : Bytes → List Bytes → Bool
mem x [] = false
mem x (y ∷ ys) = if x == y then true else mem x ys

unfoldable pub not_tried : List Bytes → List Bytes → List Bytes
not_tried tried [] = []
not_tried tried (t ∷ ts) = if mem t tried then not_tried tried ts else t ∷ not_tried tried ts

-- The end of a round: `Serve` returns, or it tries again with this as `lastErr`.
pub data Round : Type 0 where
  return : List Sent → Option Error → Round
  retry : List Sent → Error → Round

unfoldable pub again : Bool → List Sent → Error → Round
again retry_on_failure sent err =
    if retry_on_failure then retry sent err else return sent (some err)

unfoldable pub proxied_round : Bool → StreamWriter → Bool → Round
proxied_round retry_on_failure out failed =
    if failed
    then again retry_on_failure out.sent proxy_failed
    else if out.retry
    then (if retry_on_failure
        then retry out.sent (upstream_returned out.status)
        else return (flush_retry_to out).sent none)
    else return out.sent none

unfoldable pub attempt_round : Bool → List Sent → Attempt → Round
attempt_round retry_on_failure sent invalid_url = again retry_on_failure sent invalid_target
attempt_round retry_on_failure sent (proxied calls failed) =
    proxied_round retry_on_failure (on_calls calls (attempt_writer max_retry_response_bytes sent))
      failed

unfoldable pub last_error : Option Error → Error
last_error none = no_healthy_targets
last_error (some err) = err

-- While the loop runs, `error` is `lastErr`.
unfoldable pub give_up : Outcome → Outcome
give_up o = record o { error = some (last_error o.error) }

pub data Next : Type 0 where
  done : Outcome → Next
  continue : Outcome → Next

unfoldable pub after_round : Outcome → Round → Next
after_round o (return sent error) = done (record o { sent = sent; error = error })
after_round o (retry sent err) = continue (record o { sent = sent; error = some err })

unfoldable pub try_target : Env → Bool → Outcome → Balancer × Option Bytes → Next
try_target env safe o (b, none) = done (record o { balancer = b; error = some no_healthy_targets })
try_target env safe o (b, some target_url) =
    after_round (record o { balancer = b; tried = target_url ∷ o.tried })
      (attempt_round safe o.sent (env.attempt (length o.tried) target_url))

-- A round of the loop; the number of rounds before it is that of the targets tried.
unfoldable pub serve_step : Env → Bool → Bytes → List Bytes → Outcome → Next
serve_step env safe route_key targets o =
    let k = length o.tried in
    if ltb k (length targets) && ltb 0 (length (not_tried o.tried targets))
    then try_target env safe o
        (pick (env.health k) route_key (not_tried o.tried targets) (env.others k o.balancer))
    else done (give_up o)

-- The loop, with `fuel` for its rounds; `none` is that they do not suffice.
unfoldable pub serve_loop : Env → Bool → Bytes → List Bytes → ℕ → Outcome → Option Outcome
serve_loop env safe key targets zero o = none
serve_loop env safe key targets (suc fuel) o = elim (serve_step env safe key targets o) [
  | done o' ↦ some o'
  | continue o' ↦ serve_loop env safe key targets fuel o'
]

unfoldable pub started : Balancer → Outcome
started b = record { sent = []; tried = []; balancer = b; error = none }

unfoldable pub serve : Env → Bytes → List Bytes → Request → Balancer → Option Outcome
serve env route_key targets r b =
    if ltb 0 (length targets)
    then serve_loop env (is_failover_safe_method r.method && not (request_has_body r)) route_key
        targets (length targets + 1) (started b)
    else some (record (started b) { error = some no_healthy_targets })
