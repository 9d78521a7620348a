-- ===== src/Gateway/Noted.antt =====
-- What the request handler of main.go leaves in the recorder, in the queue and in the cache.
use netgoat.Prelude.{ℕ, ◌≡◌, nat_eq}
use netgoat.Std.Text.{bytes_eq}
use netgoat.Metrics.Recorder.{Recorder, record_blocked, record_cache_hit, record_proxy_error}
use netgoat.Gateway.Request.{Request}
use netgoat.Gateway.World.{
  World, Site, Moment, State, Answer, to_login, refused, blocked, decoy, replayed, served, unserved,
  Handler, if_recording,
}

-- What an answer has the recorder note, besides the request and the response.
abbrev pub note_answer : ℕ → Answer → Recorder → Recorder
note_answer done to_login x = x
note_answer done (refused status page) x = x
note_answer done (blocked reason status page) x = record_blocked reason x
note_answer done decoy x = x
note_answer done (replayed ent) x = record_cache_hit x
note_answer done (served res up) x = x
note_answer done (unserved status err page up) x = record_proxy_error done err x

module _ (w : World) (site : Site w) (m : Moment) (r : Request) where
  unfoldable IsNoted : State → Answer × State → Type 0
  IsNoted s (answer, s') =
      (s'.metrics ≡ if_recording (note_answer m.done answer) s.metrics) × (s'.running ≡ s.running)

  abbrev Notes : Handler → Type 0
  Notes k = (s : State) → IsNoted s (k s)
