-- ===== src/Mw/Recorder.antt =====
-- The Writer of core/mw/mw.go. What reaches the writer below it is kept as a list of calls, the oldest
-- first; how many bytes that writer takes of a Write is given with the call.
pub mod Once
use howl_go.Prelude.{ℕ, ◌+◌, Bool, true, false, List, [], ◌∷◌, ◌++◌, Bytes, if◌then◌else◌}

-- A call of the writer below.
pub data Call : Type 0 where
  header : ℕ → Call
  body : Bytes → Call
  flushed : Call

pub record Writer : Type 0 where
  pub below : List Call
  pub status : ℕ
  pub bytes : ℕ
  pub wrote : Bool

abbrev status_ok : ℕ
status_ok = 200

-- Wrap, of a writer that is not wrapped yet
unfoldable pub wrap : List Call → Writer
wrap below = record { below = below; status = status_ok; bytes = 0; wrote = false }

unfoldable pub write_header : ℕ → Writer → Writer
write_header code w = if w.wrote then w else record {
  below = w.below ++ header code ∷ [];
  status = code;
  bytes = w.bytes;
  wrote = true;
}

abbrev started : Writer → Writer
started w = if w.wrote then w else write_header status_ok w

-- Write, where the writer below takes n bytes
unfoldable pub write : Bytes → ℕ → Writer → Writer
unfolding write_header
write b n w =
    let begun = started w in
    record {
      below = begun.below ++ body b ∷ [];
      status = begun.status;
      bytes = begun.bytes + n;
      wrote = begun.wrote;
    }

unfoldable pub flush : Writer → Writer
unfolding write_header
flush w =
    let begun = started w in
    record {
      below = begun.below ++ flushed ∷ [];
      status = begun.status;
      bytes = begun.bytes;
      wrote = begun.wrote;
    }

-- what a handler may call, with the bytes taken of each Write
pub data Operation : Type 0 where
  set_status : ℕ → Operation
  send : Bytes → ℕ → Operation
  push : Operation

abbrev pub perform : Operation → Writer → Writer
perform (set_status code) w = write_header code w
perform (send b n) w = write b n w
perform push w = flush w

abbrev pub perform_all : List Operation → Writer → Writer
perform_all [] w = w
perform_all (o ∷ os) w = perform_all os (perform o w)
