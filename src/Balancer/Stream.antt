-- ===== src/Balancer/Stream.antt =====
-- `streamWriter` of internal/balancer/balancer.go: the ResponseWriter that an attempt writes to. It
-- holds a 5xx response back, up to a limit, so that another upstream can be tried. What the writer
-- does to the client's ResponseWriter is the list of the calls that it makes.
use netgoat.Prelude.{
  ℕ, ◌+◌, ◌^◌, Bool, true, false, ◌&&◌, List, [], ◌∷◌, ◌++◌, if◌then◌else◌, ltb, leb, length,
}
use netgoat.Std.Dict.{Dict, insert}
use netgoat.Std.Text.{Bytes, bytes_eq}

-- What ReverseProxy does to the writer: it fills `Header()` and calls the methods.
pub data Call : Type 0 where
  set_header : Bytes → List Bytes → Call
  write_header : ℕ → Call
  write : Bytes → Call
  flush : Call

-- A call of the client's ResponseWriter.
pub data Sent : Type 0 where
  added : Bytes → Bytes → Sent
  status_sent : ℕ → Sent
  body_sent : Bytes → Sent
  flushed : Sent

pub record StreamWriter : Type 0 where
  pub sent : List Sent
  pub header : Dict Bytes (List Bytes)
  pub status : ℕ
  pub wrote_hdr : Bool
  pub retry : Bool
  pub buf : Bytes
  pub buffer_limit : ℕ

abbrev pub max_retry_response_bytes : ℕ
max_retry_response_bytes = 2 ^ 20

-- The writer of an attempt, behind the calls already made.
unfoldable pub attempt_writer : ℕ → List Sent → StreamWriter
attempt_writer limit sent = record {
  sent = sent;
  header = [];
  status = 0;
  wrote_hdr = false;
  retry = false;
  buf = [];
  buffer_limit = limit;
}

unfoldable pub add_values : Bytes → List Bytes → List Sent
add_values k [] = []
add_values k (v ∷ vals) = added k v ∷ add_values k vals

unfoldable pub add_header : Dict Bytes (List Bytes) → List Sent
add_header [] = []
add_header ((k, vals) ∷ header) = add_values k vals ++ add_header header

unfoldable pub on_write_header : ℕ → StreamWriter → StreamWriter
on_write_header status_code s =
    if s.wrote_hdr
    then s
    else if leb 500 status_code
    then record s { wrote_hdr = true; status = status_code; retry = true }
    else record s {
      wrote_hdr = true;
      status = status_code;
      sent = s.sent ++ (add_header s.header ++ (status_sent status_code ∷ []));
    }

unfoldable pub flush_retry_to : StreamWriter → StreamWriter
flush_retry_to s = record s {
  sent = s.sent ++ (add_header s.header ++ (status_sent s.status ∷ body_sent s.buf ∷ []));
  buf = [];
}

unfoldable pub send_body : Bytes → StreamWriter → StreamWriter
send_body p s = record s { sent = s.sent ++ (body_sent p ∷ []) }

unfoldable pub write_started : Bytes → StreamWriter → StreamWriter
write_started p s =
    if s.retry
    then (if ltb 0 s.buffer_limit && ltb s.buffer_limit (length s.buf + length p)
        then send_body p (record (flush_retry_to s) { retry = false })
        else record s { buf = s.buf ++ p })
    else send_body p s

unfoldable pub on_write : Bytes → StreamWriter → StreamWriter
on_write p s = write_started p (if s.wrote_hdr then s else on_write_header 200 s)

unfoldable pub on_flush : StreamWriter → StreamWriter
on_flush s = if s.retry then s else record s { sent = s.sent ++ (flushed ∷ []) }

unfoldable pub on_call : Call → StreamWriter → StreamWriter
on_call (set_header k vals) s = record s { header = insert k vals s.header }
on_call (write_header status_code) s = on_write_header status_code s
on_call (write p) s = on_write p s
on_call flush s = on_flush s

unfoldable pub on_calls : List Call → StreamWriter → StreamWriter
on_calls [] s = s
on_calls (c ∷ cs) s = on_calls cs (on_call c s)
