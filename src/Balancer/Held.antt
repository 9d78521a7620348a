-- ===== src/Balancer/Held.antt =====
-- The header at the end of the calls on the `streamWriter` of internal/balancer/balancer.go, and when
-- no line of it has gone out.
use netgoat.Prelude.{
  ℕ, ◌+◌, ◌≡◌, refl, ap, ◌∙◌, true, false, Bool-cases, inl, inr, none, some, List, [], ◌∷◌, ltb,
  leb, length, length-append, arith,
}
use mathlib.Core.List.{}
use netgoat.Std.Dict.{Dict, insert}
use netgoat.Std.Text.{Bytes, bytes_eq}
use netgoat.Balancer.Stream.{
  Call, set_header, write_header, write, flush, StreamWriter, on_write_header, flush_retry_to,
  send_body, write_started, on_write, on_flush, on_call, on_calls,
}
use netgoat.Balancer.Phase.{first_status, written, holding, begun, hold}
use netgoat.Balancer.Lines.{header_of, held_header, sent_header}

header-on_write : (p : Bytes) (s : StreamWriter) → (on_write p s).header ≡ s.header
unfolding on_write write_started send_body flush_retry_to on_write_header
header-on_write p s = ground arith

header-on_write_header : (n : ℕ) (s : StreamWriter) → (on_write_header n s).header ≡ s.header
unfolding on_write_header
header-on_write_header n s = ground arith

header-on_flush : (s : StreamWriter) → (on_flush s).header ≡ s.header
unfolding on_flush
header-on_flush s = ground arith

pub on_calls-header :
    (cs : List Call) (s : StreamWriter) → (on_calls cs s).header ≡ header_of s.header cs
unfolding on_calls on_call header_of
on_calls-header [] s = refl
on_calls-header (set_header k vals ∷ cs) s =
    on_calls-header cs (record s { header = insert k vals s.header })
on_calls-header (write_header n ∷ cs) s =
    on_calls-header cs (on_write_header n s) ∙ ap (λ h. header_of h cs) (header-on_write_header n s)
on_calls-header (write p ∷ cs) s =
    on_calls-header cs (on_write p s) ∙ ap (λ h. header_of h cs) (header-on_write p s)
on_calls-header (flush ∷ cs) s =
    on_calls-header cs (on_flush s) ∙ ap (λ h. header_of h cs) (header-on_flush s)

-- Nothing goes out of a response that is not begun, or is held back.
pub sent_header-waiting :
    (limit : ℕ) (h : Dict Bytes (List Bytes)) (cs : List Call)
    → first_status cs ≡ none
    → sent_header limit h cs ≡ none
unfolding sent_header first_status
sent_header-waiting limit h [] e = refl
sent_header-waiting limit h (set_header k vals ∷ cs) e =
    sent_header-waiting limit (insert k vals h) cs e
sent_header-waiting limit h (write_header n ∷ cs) e = cc
sent_header-waiting limit h (write p ∷ cs) e = cc
sent_header-waiting limit h (flush ∷ cs) e = sent_header-waiting limit h cs e

held_header_fits :
    (limit n : ℕ) (h : Dict Bytes (List Bytes)) (cs : List Call)
    → leb (n + length (written cs)) limit ≡ true
    → held_header limit n h cs ≡ none
unfolding held_header written
held_header_fits limit n h [] fits = refl
held_header_fits limit n h (set_header k vals ∷ cs) fits =
    held_header_fits limit n (insert k vals h) cs fits
held_header_fits limit n h (write_header m ∷ cs) fits = held_header_fits limit n h cs fits
held_header_fits limit n h (write p ∷ cs) fits =
    let sizes = length-append p (written cs) in
    let small : ltb limit (n + length p) ≡ false = ground (arith, fits, sizes) in
    let later : leb (n + length p + length (written cs)) limit ≡ true =
      ground (arith, fits, sizes) in
    rw small (held_header_fits limit (n + length p) h cs later)
held_header_fits limit n h (flush ∷ cs) fits = held_header_fits limit n h cs fits

sent_header_held :
    (limit n : ℕ) (h : Dict Bytes (List Bytes)) (cs : List Call)
    → first_status cs ≡ some n
    → leb 500 n ≡ true
    → leb (length (written cs)) limit ≡ true
    → sent_header limit h cs ≡ none
unfolding sent_header first_status written
sent_header_held limit n h [] e bad fits = cc
sent_header_held limit n h (set_header k vals ∷ cs) e bad fits =
    sent_header_held limit n (insert k vals h) cs e bad fits
sent_header_held limit n h (write_header m ∷ cs) e bad fits =
    let same : m ≡ n = cc in rw (same, bad) (held_header_fits limit 0 h cs (ground (arith, fits)))
sent_header_held limit n h (write p ∷ cs) e bad fits =
    let same : 200 ≡ n = cc in absurd (ground (arith, same, bad))
sent_header_held limit n h (flush ∷ cs) e bad fits = sent_header_held limit n h cs e bad fits

begun-holding :
    (limit n : ℕ) (w : Bytes)
    → begun limit n w ≡ holding n w
    → (leb 500 n ≡ true) × (leb (length w) limit ≡ true)
unfolding begun hold
begun-holding limit n w e = elim (Bool-cases (leb 500 n)) [
  | inr ok ↦ absurd (cc (rw ok at e))
  | inl bad ↦ elim (Bool-cases (leb (length w) limit)) [
    | inl small ↦ (bad, small)
    | inr large ↦ absurd (cc (rw (bad, large) at e))
  ]
]

pub sent_header-holding :
    (limit n : ℕ) (h : Dict Bytes (List Bytes)) (cs : List Call)
    → first_status cs ≡ some n
    → begun limit n (written cs) ≡ holding n (written cs)
    → sent_header limit h cs ≡ none
sent_header-holding limit n h cs e held =
    let (bad, fits) = begun-holding limit n (written cs) held in
    sent_header_held limit n h cs e bad fits
