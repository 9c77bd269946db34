-- ===== src/Sse.antt =====
-- core/sse/event.go: the wire format of one event, and how a browser reads it. strconv.FormatInt is a
-- parameter. The half that writes to a response (core/sse/stream.go) is not modelled.
pub mod Reading
mod Tests
use howl_go.Prelude.{
  ℕ, ◌+◌, ◌/◌, ◌++◌, Bool, true, false, Option, none, some, List, [], ◌∷◌, Bytes, codes, str_eq,
  split, join, is_nil, ltb, ◌==◌, if◌then◌else◌,
}

-- Data is the payload; retry in nanoseconds; one below zero counts as zero
pub record Event : Type 0 where
  pub payload : Bytes
  pub name : Bytes
  pub id : Bytes
  pub retry : ℕ

-- a field and its value as one line
abbrev pub field_line : Bytes → Bytes → Bytes
field_line field value = field ++ (value ++ b'\n' ∷ [])

-- a field that is left out where its value is empty
abbrev pub field_if : Bytes → Bytes → Bytes
field_if field value = if is_nil value then [] else field_line field value

-- the loop over the lines of the data
unfoldable pub data_text : List Bytes → Bytes
data_text [] = []
data_text (line ∷ lines) = field_line (codes "data: ") line ++ data_text lines

module _ (itoa : ℕ → Bytes) where
  unfoldable pub frame : Event → Bytes
  frame e =
      field_if (codes "id: ") e.id
      ++ (field_if (codes "event: ") e.name
          ++ ((if ltb 0 e.retry
                then field_line (codes "retry: ") (itoa (e.retry / 1000000))
                else [])
              ++ (data_text (split b'\n' e.payload) ++ b'\n' ∷ [])))
