-- ===== src/Redact.antt =====
-- core/observe/redact.go: rendering a query filter, an update or a body for a span.
-- A value is what encoding/json decodes: a raw message or a typed value enters as its decoding, one
-- that cannot be decoded as `undecodable`, and a number with its JSON text. A map holds its entries
-- in the order of their keys, in which the loop visits them.
mod Words
mod Values
pub mod Secrecy
pub mod Bounds
pub mod Splitting
mod Tests
unfoldable pub use Words.{
  words_from, words, member, any_member, sensitive, is_digit, is_upper, is_alnum,
}
pub use Words.{to_lower, flush, after_lower, before_lower, sensitive_words}
unfoldable pub use Values.{
  index_byte, drop, take, slice, byte_at, personal, is_all, all_digits, hex_from, is_uuid,
  skip_digits, zone, fraction, timestamp, identifier,
}
pub use Values.{is_hex, base32_crockford}
use Prim.Native.Nat.{bit_and}
use howl_go.Prelude.{
  ℕ, zero, suc, ◌+◌, ◌-◌, ◌*◌, ◌/◌, ◌%◌, Bool, true, false, not, ◌&&◌, ◌||◌, List, [], ◌∷◌, ◌++◌,
  Bytes, codes, ltb, leb, ◌==◌, if◌then◌else◌, length,
}

pub data Mode : Type 0 where
  safe full off : Mode

abbrev pub is_full : Mode → Bool
is_full full = true
is_full _ = false

abbrev pub is_off : Mode → Bool
is_off off = true
is_off _ = false

mutual
  pub data Value : Type 0 where
    null : Value
    bool : Bool → Value
    number : Bytes → Value
    str : Bytes → Value
    arr : Items → Value
    obj : Fields → Value
    undecodable : Value

  pub data Items : Type 0 where
    nil : Items
    cons : Value → Items → Items

  pub data Fields : Type 0 where
    end : Fields
    field : Bytes → Value → Fields → Fields

abbrev pub max_rendered : ℕ
max_rendered = 1024

abbrev pub max_elements : ℕ
max_elements = 8

abbrev pub max_depth : ℕ
max_depth = 6

abbrev pub redacted : Bytes
redacted = b'?' ∷ []

abbrev pub quoted : Bytes → Bytes
quoted s = b'"' ∷ s ++ b'"' ∷ []

-- the UTF-8 bytes of the character "…"
abbrev pub ellipsis : Bytes
ellipsis = 0xE2 ∷ 0x80 ∷ 0xA6 ∷ []

abbrev pub count_items : Items → ℕ
count_items nil = 0
count_items (cons v vs) = suc (count_items vs)

-- strconv.Itoa, on fuel that is the number itself
abbrev pub itoa_from : ℕ → ℕ → Bytes → Bytes
itoa_from zero n out = out
itoa_from (suc fuel) n out =
    let more = itoa_from fuel (n / 10) ((48 + n % 10) ∷ out) in
    if ltb n 10 then (48 + n) ∷ out else more

abbrev pub itoa : ℕ → Bytes
itoa n = itoa_from (suc n) n []

-- a character that quote leaves to encoding/json
abbrev pub needs_escape : ℕ → Bool
needs_escape c = ltb c 0x20 || c == b'"' || c == 0x5C || leb 0x80 c

unfoldable pub plain : Bytes → Bool
plain [] = true
plain (c ∷ s) = if needs_escape c then false else plain s

-- the tests at the head of write
abbrev pub guarded : Bytes → ℕ → Bytes → Bytes
guarded b depth out =
    if ltb max_depth depth
    then b ++ quoted ellipsis
    else if ltb max_rendered (length b)
    then b
    else out

abbrev pub is_boundary : ℕ → Bool
is_boundary b = not (bit_and b 0xC0 == 0x80)

-- the loop of Render that steps back to a character's first byte
unfoldable pub cut_from : ℕ → Bytes → ℕ
unfolding byte_at
cut_from zero out = 0
cut_from (suc cut) out =
    let back = cut_from cut out in
    if not (is_boundary (byte_at out (suc cut))) then back else suc cut

unfoldable pub text : Bytes → Mode → Bytes
text s mode =
    if is_off mode
    then []
    else if personal s
    then redacted
    else if is_full mode || identifier s
    then s
    else redacted

-- a key that holds a personal value is not written
abbrev pub key_text : Bytes → Bytes
key_text k = if personal k then redacted else k

-- `marshal` is encoding/json on a string
module _ (marshal : Bytes → Bytes) where
  unfoldable pub quote : Bytes → Bytes → Bytes
  unfolding plain
  quote b s = if plain s then b ++ quoted s else b ++ marshal s

  unfoldable pub write_str : Bytes → Bytes → Mode → Bool → Bytes
  unfolding quote
  write_str b s mode hidden =
      if hidden || personal s || (not (is_full mode) && not (identifier s))
      then b ++ quoted redacted
      else quote b s

  unfoldable mutual
    pub write : Bytes → Value → Mode → Bool → ℕ → Bytes
    write b null mode hidden depth = guarded b depth (b ++ codes "null")
    write b (bool x) mode hidden depth =
        guarded b depth (b ++ (if x then codes "true" else codes "false"))
    write b (number text) mode hidden depth = guarded b depth (b ++ text)
    write b (str s) mode hidden depth = guarded b depth (write_str b s mode hidden)
    write b (arr xs) mode hidden depth =
        let out = write_slice (b ++ b'[' ∷ []) xs mode hidden depth 0 in guarded b depth out
    write b (obj fs) mode hidden depth =
        let out = write_map (b ++ b'{' ∷ []) fs mode hidden depth true in guarded b depth out
    write b undecodable mode hidden depth = guarded b depth (b ++ quoted redacted)

    pub write_slice : Bytes → Items → Mode → Bool → ℕ → ℕ → Bytes
    write_slice b nil mode hidden depth i = b ++ b']' ∷ []
    write_slice b (cons v vs) mode hidden depth i =
        let comma = if ltb 0 i then b ++ b',' ∷ [] else b in
        let rest =
          write_slice (write comma v mode hidden (depth + 1)) vs mode hidden depth (i + 1) in
        if i == max_elements
        then b ++ quoted (b'+' ∷ itoa (suc (count_items vs)) ++ codes " more") ++ b']' ∷ []
        else rest

    pub write_map : Bytes → Fields → Mode → Bool → ℕ → Bool → Bytes
    write_map b end mode hidden depth first = b ++ b'}' ∷ []
    write_map b (field k v fs) mode hidden depth first =
        let comma = if first then b else b ++ b',' ∷ [] in
        let key = quote comma (key_text k) ++ b':' ∷ [] in
        let rest =
          write_map (write key v mode (hidden || sensitive k) (depth + 1)) fs mode hidden depth
            false in
        if ltb max_rendered (length comma) then comma ++ quoted ellipsis ++ b'}' ∷ [] else rest

  unfoldable pub render : Value → Mode → Bytes
  unfolding cut_from take
  render v mode =
      let out = write [] v mode false 0 in
      let cut = cut_from max_rendered out in
      if is_off mode
      then []
      else if ltb max_rendered (length out)
      then take cut out ++ ellipsis
      else out
