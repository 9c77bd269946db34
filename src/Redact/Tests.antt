-- ===== src/Redact/Tests.antt =====
-- The theorems on core/observe/redact.go at small values.
use howl_go.Prelude.{◌≤◌, ◌≡◌, refl, true, false, [], ◌∷◌, ◌++◌, Bytes, codes, length}
use howl_go.Redact.{
  full, Value, str, obj, field, end, render, words, sensitive, is_upper, is_alnum, to_lower,
  any_member,
}
use howl_go.Redact.Bounds.{length-render}
use howl_go.Redact.Splitting.{words-upper}

-- the JSON encoding of a text without characters to escape
abbrev plain_json : Bytes → Bytes
plain_json s = b'"' ∷ s ++ b'"' ∷ []

abbrev named : Bytes → Value
named name = obj (field (codes "password") (str name) end)

length-render_example : length (render plain_json (named (codes "letmein")) full) ≤ 1027
length-render_example = length-render plain_json (named (codes "letmein")) full

dash_separates : is_alnum b'-' ≡ false
unfolding is_alnum
dash_separates = refl

low_end : is_upper b'i' ≡ false
unfolding is_upper
low_end = refl

upper_k : is_upper b'K' ≡ true
unfolding is_upper
upper_k = refl

upper_e : is_upper b'E' ≡ true
unfolding is_upper
upper_e = refl

upper_y : is_upper b'Y' ≡ true
unfolding is_upper
upper_y = refl

words-upper_example :
    words (b'K' ∷ codes "E" ++ b'Y' ∷ b'-' ∷ codes "id")
    ≡ to_lower (b'K' ∷ codes "E") ∷ to_lower (b'Y' ∷ []) ∷ words (codes "id")
words-upper_example =
    words-upper b'K' (codes "E") b'Y' b'-' (codes "id") (upper_k, (upper_e, tt)) upper_y
      dash_separates

-- In lower case the same field is found.
key_found : (sensitive (codes "key_id") ≡ true) × (sensitive (codes "KEY_ID") ≡ false)
unfolding sensitive words any_member is_alnum is_upper
key_found = (refl, refl)
