-- ===== src/Balancer/Tests.antt =====
-- The balancer of internal/balancer/balancer.go on two upstreams, one of which fails.
use netgoat.Prelude.{
  ℕ, ◌+◌, ◌<◌, ◌≤◌, ◌≡◌, refl, false, not, ◌&&◌, List, [], ◌∷◌, ◌++◌, if◌then◌else◌, ◌==◌, length,
  get_elem?, arith, Option, none, some, pos, Bool-cases, inl, inr,
}
use netgoat.Std.Dict.{lookup, insert}
use netgoat.Std.Text.{Bytes, bytes_eq, bytes_beq, codes}
use netgoat.Health.Worker.{Worker, new_worker, is_healthy, healthy_targets, flag}
use netgoat.Balancer.Pick.{uint64_mod, counter, pick_from, pick}
use netgoat.Balancer.RoundRobin.{after_picks, pick_fair}
use netgoat.Balancer.Stream.{
  set_header, write_header, write, flush, Sent, added, status_sent, body_sent, flushed,
  attempt_writer, add_values, add_header, on_write_header, flush_retry_to, send_body, write_started,
  on_write, on_flush, on_call, on_calls,
}
use netgoat.Balancer.Phase.{final_phase, NoInterim, Shows, first_status}
use netgoat.Balancer.Lines.{lines, sent_header, sent_lines}
use netgoat.Balancer.Delivery.{on_calls-phase_of}
use netgoat.Balancer.Fresh.{IsFresh}
use netgoat.Balancer.Attempts.{IsPlain, AnswersPlainly}
use netgoat.Balancer.Failover.{Settles, serve-Settles}
use netgoat.Balancer.Serve.{
  Request, is_failover_safe_method, is_zero, request_has_body, Env, Attempt, invalid_url, proxied,
  Outcome, mem, not_tried, again, proxied_round, attempt_round, last_error, give_up, after_round,
  try_target, serve_step, serve_loop, started, serve,
}

program : Unit {0}
unfolding counter pick_from pick healthy_targets is_healthy flag lookup insert after_picks
    attempt_writer add_values add_header on_write_header flush_retry_to send_body write_started
    on_write on_flush on_call on_calls is_failover_safe_method is_zero request_has_body mem
    not_tried again proxied_round attempt_round last_error give_up after_round try_target serve_step
    serve_loop started serve new_worker first_status bytes_beq
program = tt

abbrev worker : Worker
worker = new_worker (pos 10) (pos 3) []

abbrev a_then_b : List Bytes
a_then_b = codes "a" ∷ codes "b" ∷ []

abbrev at_a : Attempt
at_a = proxied (write_header 503 ∷ write (codes "no") ∷ []) false

abbrev at_b : Attempt
at_b =
    proxied
      (set_header (codes "K") (codes "v" ∷ []) ∷ write (codes "o") ∷ write (codes "k") ∷ flush ∷ [])
      false

abbrev attempts : Bytes → Attempt
attempts t = if t == codes "a" then at_a else at_b

abbrev env : Env
env = record { health = λ k. worker; others = λ k b. b; attempt = λ k t. attempts t }

abbrev get : Request
get = record {
  method = codes "GET";
  has_body = false;
  content_length = pos 0;
  transfer_encoding = [];
}

abbrev post : Request
post = record get { method = codes "POST" }

summary : Option Outcome → Option (List Sent × List Bytes)
summary none = none
summary (some o) = some (o.sent, o.tried)

-- The failing upstream is passed over for a GET, and not for a POST.
served :
    (summary (serve env [] a_then_b get [])
      ≡ some (
        added (codes "K") (codes "v")
            ∷ status_sent 200
            ∷ body_sent (codes "o")
            ∷ body_sent (codes "k")
            ∷ flushed
            ∷ [],
        codes "b" ∷ codes "a" ∷ [],
      ))
    × (summary (serve env [] a_then_b post [])
        ≡ some (status_sent 503 ∷ body_sent (codes "no") ∷ [], codes "a" ∷ []))
unfolding program summary
served = (refl, refl)

Plain : Attempt → Type 0
Plain invalid_url = Unit
Plain (proxied calls failed) = IsPlain calls failed

at_a-Plain : Plain at_a
unfolding NoInterim Plain
at_a-Plain = ((omega arith, tt), λ e. cc)

at_b-Plain : Plain at_b
unfolding NoInterim Plain
at_b-Plain = (tt, λ e. cc)

attempts-Plain : (t : Bytes) → Plain (attempts t)
attempts-Plain t = elim (Bool-cases (t == codes "a")) [
  | inl a ↦ rw a at_a-Plain
  | inr b ↦ rw b at_b-Plain
]

Plain-same : (a b : Attempt) → a ≡ b → Plain a → Plain b
Plain-same a b e h = rw e at h

plainly : AnswersPlainly env
unfolding Plain
plainly k t calls failed e = Plain-same (attempts t) (proxied calls failed) e (attempts-Plain t)

serve-Settles_example :
    (o : Outcome) × (serve env [] a_then_b get [] ≡ some o)
    × IsFresh env a_then_b o.tried
    × Settles env o
    × (length o.tried ≤ (
        if is_failover_safe_method get.method && not (request_has_body get)
        then length a_then_b
        else 1))
serve-Settles_example = serve-Settles env [] a_then_b get [] plainly

on_calls-phase_of_example :
    let calls = write_header 500 ∷ write (codes "no") ∷ [] in
    Shows [] 8 (on_calls calls (attempt_writer 8 [])) (final_phase 8 calls)
    × (lines (on_calls calls (attempt_writer 8 [])).sent
        ≡ lines [] ++ sent_lines (sent_header 8 [] calls))
on_calls-phase_of_example =
    on_calls-phase_of [] 8 (write_header 500 ∷ write (codes "no") ∷ []) (omega arith)
      (unfold NoInterim in (omega arith, tt))

pick_fair_example :
    (i : ℕ) × (i < length (healthy_targets worker a_then_b))
    × ((pick worker [] a_then_b (after_picks worker [] a_then_b i [])).1 ≡ some (codes "b"))
pick_fair_example = pick_fair worker [] a_then_b [] 1 (codes "b") second little
  where
    second : get_elem? (healthy_targets worker a_then_b) 1 ≡ some (codes "b")
    second = unfold program in refl

    little : counter [] [] + length (healthy_targets worker a_then_b) < uint64_mod
    little = unfold program in omega arith
