-- ===== src/Sse/Reading.antt =====
-- What an EventSource hears of a frame of core/sse/event.go, by the standard of server-sent events for
-- a stream whose lines end in a line feed.
use mathlib.Core.List.{append_assoc, append-nil}
use howl_go.Prelude.{
  ℕ, ◌/◌, ◌++◌, ◌≡◌, refl, sym, ap, ◌∙◌, inl, inr, Bool, Bool-cases, true, false, Option, none,
  some, List, [], ◌∷◌, Bytes, codes, str_eq, split, join, Free, All, cons_head, split-some,
  split-append, split-Free, contains_byte, is_nil, ltb, ◌==◌, ==_iff, if◌then◌else◌, arith,
}
use howl_go.Sse.{Event, field_line, field_if, data_text, frame}

-- What is heard up to now: the values of the data lines, the name and the id.
pub record Heard : Type 0 where
  pub lines : List Bytes
  pub name : Bytes
  pub id : Bytes

abbrev pub silence : Heard
silence = record { lines = []; name = []; id = [] }

-- the field name of a line
unfoldable pub field_of : Bytes → Bytes
field_of [] = []
field_of (c ∷ s) = let later = field_of s in if c == b':' then [] else c ∷ later

abbrev pub drop_space : Bytes → Bytes
drop_space [] = []
drop_space (c ∷ s) = if c == b' ' then s else c ∷ s

-- the value of a line, less one space
unfoldable pub value_of : Bytes → Bytes
value_of [] = []
value_of (c ∷ s) = let later = value_of s in if c == b':' then drop_space s else later

unfoldable pub hear : Bytes → Heard → Heard
unfolding field_of value_of
hear line h =
    let field = field_of line in
    let value = value_of line in
    if str_eq field (codes "data")
    then record h { lines = h.lines ++ value ∷ [] }
    else if str_eq field (codes "event")
    then record h { name = value }
    else if str_eq field (codes "id")
    then record h { id = value }
    else h

-- an empty line dispatches what is heard
unfoldable pub listen : List Bytes → Heard → Option Heard
listen [] h = none
listen (line ∷ lines) h =
    let later = listen lines (hear line h) in if is_nil line then some h else later

abbrev pub read : Bytes → Heard → Option Heard
read s h = listen (split b'\n' s) h

join-split : (s : Bytes) → join b'\n' (split b'\n' s) ≡ s
unfolding split join
join-split [] = refl
join-split (c ∷ s) = elim (Bool-cases (b'\n' == c)) [
  | inl feed ↦
      (let same : c ≡ b'\n' = ground (arith, feed, ==_iff b'\n' c) in
        rw (feed, same)
          (fed (split b'\n' s) (split-some b'\n' s) ∙ ap (λ t. b'\n' ∷ t) (join-split s)))
  | inr other ↦
      rw other (headed (split b'\n' s) (split-some b'\n' s) ∙ ap (λ t. c ∷ t) (join-split s))
]
  where
    fed :
        (parts : List Bytes)
        → is_nil parts ≡ false
        → join b'\n' ([] ∷ parts) ≡ b'\n' ∷ join b'\n' parts
    fed [] h = absurd (ground arith)
    fed (w ∷ ws) h = refl

    headed :
        (parts : List Bytes)
        → is_nil parts ≡ false
        → join b'\n' (cons_head c parts) ≡ c ∷ join b'\n' parts
    headed [] h = absurd (ground arith)
    headed (w ∷ []) h = refl
    headed (w ∷ v ∷ ws) h = refl

read-line :
    (w r : Bytes) (h : Heard)
    → Free b'\n' w
    → is_nil w ≡ false
    → read (w ++ b'\n' ∷ r) h ≡ read r (hear w h)
unfolding listen
read-line w r h f some_left = rw (split-append b'\n' w r f, some_left) refl

-- a field line is one line
read-field :
    (field value r : Bytes) (h : Heard)
    → Free b'\n' (field ++ value)
    → is_nil (field ++ value) ≡ false
    → read (field_line field value ++ r) h ≡ read r (hear (field ++ value) h)
read-field field value r h f some_left =
    let whole : field_line field value ++ r ≡ (field ++ value) ++ b'\n' ∷ r = simp append_assoc in
    ap (λ s. read s h) whole ∙ read-line (field ++ value) r h f some_left

Free-append : (s t : Bytes) → Free b'\n' s → Free b'\n' t → Free b'\n' (s ++ t)
Free-append [] t f g = g
Free-append (c ∷ s) t (f, fs) g = (f, Free-append s t fs g)

pub contains_byte-Free : (s : Bytes) → contains_byte b'\n' s ≡ false → Free b'\n' s
unfolding contains_byte
contains_byte-Free [] h = tt
contains_byte-Free (c ∷ s) h =
    (λ e. ground (arith, ==_iff b'\n' c), contains_byte-Free s (ground arith))

hear-data :
    (value : Bytes) (h : Heard)
    → hear (codes "data: " ++ value) h ≡ record h { lines = h.lines ++ value ∷ [] }
unfolding hear field_of value_of str_eq
hear-data value h = refl

-- a field line with a fixed name
field-heard :
    (field value r : Bytes) (h : Heard)
    → contains_byte b'\n' field ≡ false
    → is_nil field ≡ false
    → Free b'\n' value
    → read (field_line field value ++ r) h ≡ read r (hear (field ++ value) h)
field-heard [] value r h plain some_left f = absurd (ground arith)
field-heard (c ∷ field) value r h plain some_left f =
    read-field (c ∷ field) value r h
      (Free-append (c ∷ field) value (contains_byte-Free (c ∷ field) plain) f) refl

read-data :
    (lines : List Bytes) (h : Heard)
    → All (Free b'\n') lines
    → read (data_text lines ++ b'\n' ∷ []) h ≡ some (record h { lines = h.lines ++ lines })
unfolding data_text listen split contains_byte
read-data [] h f = ap (λ l. some (record h { lines = l })) (sym (append-nil h.lines))
read-data (line ∷ lines) h (f, fs) =
    let one = record h { lines = h.lines ++ line ∷ [] } in
    let rest = data_text lines ++ b'\n' ∷ [] in
    ap (λ s. read s h)
      (append_assoc (field_line (codes "data: ") line) (data_text lines) (b'\n' ∷ []))
    ∙ field-heard (codes "data: ") line rest h refl refl f
    ∙ ap (read rest) (hear-data line h)
    ∙ read-data lines one fs
    ∙ ap (λ l. some (record h { lines = l })) (append_assoc h.lines (line ∷ []) lines)

abbrev heard_so_far : Bytes → Bytes → Heard
heard_so_far name id = record { lines = []; name = name; id = id }

read-id :
    (id r : Bytes)
    → Free b'\n' id
    → read (field_if (codes "id: ") id ++ r) silence ≡ read r (heard_so_far [] id)
unfolding hear field_of value_of str_eq contains_byte
read-id [] r f = refl
read-id (c ∷ id) r f = field-heard (codes "id: ") (c ∷ id) r silence refl refl f

read-name :
    (name id r : Bytes)
    → Free b'\n' name
    → read (field_if (codes "event: ") name ++ r) (heard_so_far [] id)
      ≡ read r (heard_so_far name id)
unfolding hear field_of value_of str_eq contains_byte
read-name [] id r f = refl
read-name (c ∷ name) id r f =
    field-heard (codes "event: ") (c ∷ name) r (heard_so_far [] id) refl refl f

read-retry :
    (sent : Bool) (delay r : Bytes) (h : Heard)
    → Free b'\n' delay
    → read ((if sent then field_line (codes "retry: ") delay else []) ++ r) h ≡ read r h
unfolding hear field_of value_of str_eq contains_byte
read-retry false delay r h f = refl
read-retry true delay r h f = field-heard (codes "retry: ") delay r h refl refl f

abbrev message : Option Heard → Option (Bytes × Bytes × Bytes)
message none = none
message (some h) = some (join b'\n' h.lines, h.name, h.id)

-- the payload, the name and the id of the event that a frame dispatches
unfoldable pub received : Bytes → Option (Bytes × Bytes × Bytes)
unfolding listen join split
received s = message (read s silence)

module _ (itoa : ℕ → Bytes) (plain : (n : ℕ) → Free b'\n' (itoa n)) where
  -- A reader of server-sent events receives from a frame the payload, the name and the id of its
  -- event, whatever line feeds the payload holds, when the name and the id hold none. It is assumed
  -- that the decimal text of a number holds no line feed. The reader ends a line at a line feed only.
  pub received-frame :
      (e : Event)
      → Free b'\n' e.name
      → Free b'\n' e.id
      → received (frame itoa e) ≡ some (e.payload, e.name, e.id)
  unfolding received frame
  received-frame e f g = ap message whole ∙ ap (λ s. some (s, e.name, e.id)) (join-split e.payload)
    where
      lines : List Bytes
      lines = split b'\n' e.payload

      body : Bytes
      body = data_text lines ++ b'\n' ∷ []

      delay : Bytes
      delay = if ltb 0 e.retry then field_line (codes "retry: ") (itoa (e.retry / 1000000)) else []

      named : Bytes
      named = field_if (codes "event: ") e.name ++ (delay ++ body)

      whole :
          read (frame itoa e) silence ≡ some (record { lines = lines; name = e.name; id = e.id })
      whole =
          read-id e.id named g
          ∙ read-name e.name e.id (delay ++ body) f
          ∙ read-retry (ltb 0 e.retry) (itoa (e.retry / 1000000)) body (heard_so_far e.name e.id)
              (plain (e.retry / 1000000))
          ∙ read-data lines (heard_so_far e.name e.id) (split-Free b'\n' e.payload)
