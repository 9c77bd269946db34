-- ===== src/Sse/Tests.antt =====
-- A frame of two lines, as core/sse/sse_test.go has one.
use howl_go.Prelude.{ℕ, ◌≡◌, refl, some, Bytes, codes, split, contains_byte}
use howl_go.Sse.{Event, data_text, frame}
use howl_go.Sse.Reading.{received, received-frame, contains_byte-Free}

-- one digit for every delay
abbrev digit : ℕ → Bytes
digit n = codes "3"

abbrev two_lines : Event
two_lines = record {
  payload = codes "one\ntwo";
  name = codes "tick";
  id = codes "7";
  retry = 3000000;
}

written : frame digit two_lines ≡ codes "id: 7\nevent: tick\nretry: 3\ndata: one\ndata: two\n\n"
unfolding frame data_text split
written = refl

received-frame_example :
    received (frame digit two_lines) ≡ some (codes "one\ntwo", codes "tick", codes "7")
unfolding contains_byte
received-frame_example =
    received-frame digit (λ n. contains_byte-Free (codes "3") refl) two_lines
      (contains_byte-Free (codes "tick") refl) (contains_byte-Free (codes "7") refl)
