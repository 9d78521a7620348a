-- ===== src/Gateway/World.antt =====
-- What the request handler of main.go works on: its configuration, its state, and how it answers.
-- What time, the queue, a model and an upstream return to a request are its `Moment`.
use netgoat.Prelude.{
  ◌⊎◌, inl, inr, ℕ, ◌≡◌, refl, Bool, true, Option, none, some, List, ◌==◌, nat_eq, ℤ,
}
use netgoat.Std.Text.{Bytes, bytes_eq, codes}
use netgoat.Cache.Store.{Header, Entry, Store as CacheStore}
use netgoat.ClientIp.NetIp.{NetIp}
use netgoat.Traffic.Limiter.{RateLimiter}
use netgoat.Routes.Matcher.{Regexp}
use netgoat.Routes.Snapshot.{RouteSnapshot}
use netgoat.Challenge.Store.{Store as ChallengeStore}
use netgoat.Metrics.Recorder.{Recorder}
use netgoat.Waf.Engine.{ExprVm, CompiledRule}
use netgoat.Auth.Users.{Users}
use netgoat.Gateway.Pages.{ErrorPageStore, Page, Dice}

-- The code that is not the program's: addresses, the digest of a binding, the comparison of a
-- password with its hash, the expression engine, regular expressions and the overlay.
pub record World : Type 1 where
  pub netip : NetIp
  pub sum : Bytes → Bytes
  pub compare_hash : Bytes → Bytes → Bool
  pub vm : ExprVm
  pub regexp : Regexp
  pub inject_overlay : Bytes → Bytes

-- The configuration that a request meets, with the tables that are only read. A detector that is off
-- is missing; one that is on has the configured name of its header.
pub record Site (w : World) : Type 0 where
  pub trusted : List w.netip.Prefix
  pub auth_enabled : Bool
  pub zero_trust_setting : Option Bytes
  pub honeypot : Bool
  pub rate_limit_key_mode : Bytes
  pub koda_waf : Option Bytes
  pub anomaly : Option Bytes
  pub koda2 : Option Bytes
  pub debug_overlay : Bool
  pub pages : ErrorPageStore
  pub users : Users
  pub rules : List (CompiledRule w.vm)
  pub routes : RouteSnapshot w.regexp

pub data QueueOutcome : Type 0 where
  unlimited : QueueOutcome
  admitted : QueueOutcome
  queue_full : QueueOutcome
  queue_timeout : QueueOutcome

pub QueueOutcome-cases :
    (q : QueueOutcome)
    → ((q ≡ unlimited) ⊎ (q ≡ admitted)) ⊎ ((q ≡ queue_full) ⊎ (q ≡ queue_timeout))
QueueOutcome-cases unlimited = inl (inl refl)
QueueOutcome-cases admitted = inl (inr refl)
QueueOutcome-cases queue_full = inr (inl refl)
QueueOutcome-cases queue_timeout = inr (inr refl)

-- A response of an upstream; `complete` if its body was read to the end. The length of the body may
-- be unknown.
pub record Origin : Type 0 where
  pub origin_status : ℕ
  pub origin_header : Header
  pub content_length : Option ℕ
  pub origin_body : Bytes
  pub complete : Bool

-- What `Serve` returns: a response that went to the client, or an error, by a timeout or not.
pub data Proxied : Type 0 where
  delivered : Origin → Proxied
  broken : Bool → Option Bytes → Proxied

pub Proxied-cases :
    (p : Proxied)
    → ((res : Origin) × (p ≡ delivered res))
      ⊎ ((timeout : Bool) × (err : Option Bytes) × (p ≡ broken timeout err))
Proxied-cases (delivered res) = inl (res, refl)
Proxied-cases (broken timeout err) = inr (timeout, err, refl)

pub record Upstream : Type 0 where
  pub route_key : Bytes
  pub urls : List Bytes
  pub header : Header

-- Nothing, an error, or whether the request is blocked.
abbrev pub Predict : Type 0
Predict = Bytes → Option Bool

-- `done` is the time at which the response ends, with what the metrics writer then has: the bytes
-- written and, for a request that an upstream was asked for, the status, which is the first that went
-- through the writer (an informational one if the upstream sent such, 200 after a hijack); and the
-- time it took.
pub record Moment : Type 0 where
  pub now : ℕ
  pub seconds : ℕ
  pub dice : Dice
  pub queue : QueueOutcome
  pub koda_waf_predict : Predict
  pub anomaly_predict : Predict
  pub koda2_predict : Predict
  pub proxy : Upstream → Proxied
  pub done : ℕ
  pub written : ℤ
  pub first_status : ℕ
  pub duration : ℤ

-- The shared state; `running` counts the places of the queue that are taken.
pub record State : Type 0 where
  pub metrics : Option Recorder
  pub limiter : Option RateLimiter
  pub challenges : ChallengeStore
  pub cache : Option CacheStore
  pub running : ℕ

-- How a request is answered: by a redirection to the login, an error page, a gate that blocks for a
-- reason, the decoy, an entry of the cache, or an upstream, which may fail.
pub data Answer : Type 0 where
  to_login : Answer
  refused : ℕ → Page → Answer
  blocked : Bytes → ℕ → Page → Answer
  decoy : Answer
  replayed : Entry → Answer
  served : Origin → Upstream → Answer
  unserved : ℕ → Option Bytes → Page → Upstream → Answer

abbrev pub Handler : Type 0
Handler = State → Answer × State

-- A call of the recorder, where there is one.
unfoldable pub if_recording : (Recorder → Recorder) → Option Recorder → Option Recorder
if_recording f none = none
if_recording f (some recorder) = some (f recorder)

abbrev pub on_metrics : (Recorder → Recorder) → State → State
on_metrics f s = record s { metrics = if_recording f s.metrics }

unfoldable pub is_zero_trust_enabled : Option Bytes → Bool
is_zero_trust_enabled none = true
is_zero_trust_enabled (some value) = value == codes "true"
