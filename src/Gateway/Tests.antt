-- ===== src/Gateway/Tests.antt =====
-- A site with a login and a limiter, and a user who is asked for a challenge.
use netgoat.Prelude.{◌⊎◌, All, ℕ, ◌+◌, ◌≡◌, true, false, none, some, [], ◌∷◌, pos}
use netgoat.Std.Text.{Bytes, bytes_beq, bytes_eq, codes, contains, to_lower}
use netgoat.Std.Url.{Values}
use netgoat.Agent.Sharing.{header_get, conditional_headers}
use netgoat.Agent.Shared.{Lacks}
use netgoat.ClientIp.NetIp.{NetIp}
use netgoat.Routes.Matcher.{Regexp}
use netgoat.Routes.Snapshot.{new_route_snapshot}
use netgoat.Traffic.Limiter.{new_rate_limiter}
use netgoat.Challenge.Suspicion.{text}
use netgoat.Challenge.Store.{Challenge, Store, new_store, cleanup_expired_locked, add_challenge}
use netgoat.Metrics.Recorder.{new_recorder}
use netgoat.Waf.Engine.{ExprVm}
use netgoat.Auth.Users.{User}
use netgoat.Gateway.Request.{Request}
use netgoat.Gateway.Pages.{Dice}
use netgoat.Gateway.World.{World, Site, unlimited, broken, Moment, State}
use netgoat.Gateway.Handler.{handle}
use netgoat.Gateway.Closed.{answer_gate, first_closed, closed_gates}
use netgoat.Gateway.Order.{handle-first_closed}
use netgoat.Gateway.Uncached.{is_replayed, handle-shared}
use netgoat.Gateway.ZeroTrust.{binding_of}

abbrev net : NetIp
net = record {
  Addr = Bytes;
  Prefix = Bytes;
  addr_eq = bytes_eq;
  prefix_eq = bytes_eq;
  parse_addr = some;
  parse_addr_port = λ s. none;
  has_zone = λ a. false;
  unmap = λ a. a;
  is4in6 = λ a. false;
  bit_len = λ a. 32;
  text = λ a. a;
  parse_prefix = some;
  prefix_from = λ a bits. a;
  prefix_addr = λ p. p;
  prefix_bits = λ p. 32;
  masked = λ p. p;
  prefix_contains = bytes_beq;
}

abbrev literal : Regexp
literal = record { Regex = Bytes; compile = some; match_string = bytes_beq }

abbrev needle : ExprVm
needle = record {
  Program = Bytes;
  compile = some;
  run = λ part env. some (some (contains env.path part));
}

abbrev world : World
world = record {
  netip = net;
  sum = λ s. s;
  compare_hash = bytes_beq;
  vm = needle;
  regexp = literal;
  inject_overlay = λ body. body;
}

abbrev goose : User
goose = record {
  id = 4;
  username = codes "goose";
  password_hash = codes "honk";
  zero_trust_enabled = 1;
}

abbrev site : Site world
site = record {
  trusted = [];
  auth_enabled = true;
  zero_trust_setting = none;
  honeypot = true;
  rate_limit_key_mode = codes "ip";
  koda_waf = none;
  anomaly = none;
  koda2 = none;
  debug_overlay = false;
  pages = record { by_host = []; by_path = []; default_page = [] };
  users = record {
    rows = goose ∷ [];
    sessions = (codes "T", record { user_id = 4; expires_at = 1000 }) ∷ [];
  };
  rules = [];
  routes = new_route_snapshot literal;
}

abbrev request : Request
request = record {
  remote_addr = codes "10.0.0.9";
  host = codes "a.org";
  method = codes "POST";
  path = codes "/";
  escaped_path = codes "/";
  raw_query = [];
  header = [];
  auth_token = some (codes "T");
}

abbrev id : Bytes
id = codes "AAAAAAAAAAAAAAAAAAAAAA"

abbrev dice : Dice
dice = record { draw = record { b0 = 9; b1 = 18; b2 = 4 }; ids = id ∷ [] }

abbrev moment : ℕ → Moment
moment now = record {
  now = now;
  seconds = 5;
  dice = dice;
  queue = unlimited;
  koda_waf_predict = λ csv. none;
  anomaly_predict = λ csv. none;
  koda2_predict = λ csv. none;
  proxy = λ up. broken true none;
  done = now + 1;
  written = pos 10;
  first_status = 200;
  duration = pos 1;
}

abbrev challenges : Store
challenges = new_store (pos 2) (pos 2) (pos 2) (pos 10) (pos 100)

abbrev state : State
state = record {
  metrics = some new_recorder;
  limiter = some (new_rate_limiter (pos 60) (pos 1));
  challenges = challenges;
  cache = none;
  running = 0;
}

handle-first_closed_example :
    answer_gate (handle world site (moment 5) request state).0
    ≡ first_closed (closed_gates world site (moment 5) request state)
handle-first_closed_example = handle-first_closed world site (moment 5) request state

handle-shared_example :
    (((handle world site (moment 5) request state).1.cache ≡ none)
      × (is_replayed (handle world site (moment 5) request state).0 ≡ false))
    ⊎ ((codes "POST" ≡ codes "GET")
        × (header_get (codes "Authorization") [] ≡ [])
        × (header_get (codes "Cookie") [] ≡ [])
        × All (λ name. header_get name [] ≡ []) conditional_headers
        × Lacks (to_lower (header_get (codes "Cache-Control") [])) (codes "no-store"))
handle-shared_example = handle-shared world site (moment 5) request state

abbrev binding : Bytes
binding = binding_of world site (moment 5) request

abbrev made : Challenge × Store
made =
    add_challenge (λ s. s) binding [] 50 text dice.draw 5
      (cleanup_expired_locked 5 challenges).challenges (cleanup_expired_locked 5 challenges) id

abbrev form : Values
form = (codes "challenge_id", id ∷ []) ∷ (codes "answer", codes "mountain" ∷ []) ∷ []
