-- ===== src/Redact/Values.antt =====
-- core/observe/redact.go: which texts name a person, and which are identifiers.
use howl_go.Prelude.{
  ℕ, zero, suc, ◌-◌, ◌+◌, Bool, true, false, not, ◌&&◌, ◌||◌, Option, none, some, [], ◌∷◌, Bytes,
  codes, str_eq, ltb, leb, ◌==◌, if◌then◌else◌, length, is_nil,
}
use howl_go.Redact.Words.{is_digit}

-- strings.IndexByte
unfoldable pub index_byte : Bytes → ℕ → Option ℕ
index_byte [] c = none
index_byte (d ∷ s) c = elim (d == c) [
  | true ↦ some 0
  | false ↦ elim (index_byte s c) [ none ↦ none | some n ↦ some (suc n) ]
]

unfoldable pub drop : ℕ → Bytes → Bytes
drop zero s = s
drop (suc n) [] = []
drop (suc n) (c ∷ s) = drop n s

unfoldable pub take : ℕ → Bytes → Bytes
take zero s = []
take (suc n) [] = []
take (suc n) (c ∷ s) = c ∷ take n s

-- s[lo:hi]
unfoldable pub slice : Bytes → ℕ → ℕ → Bytes
unfolding drop take
slice s lo hi = take (hi - lo) (drop lo s)

-- s[i]; every use stands behind a test of the length
unfoldable pub byte_at : Bytes → ℕ → ℕ
byte_at [] i = 0
byte_at (c ∷ s) zero = c
byte_at (c ∷ s) (suc i) = byte_at s i

abbrev positive : Option ℕ → Bool
positive none = false
positive (some n) = ltb 0 n

-- the tests of personal on the position of '@'
abbrev personal_at : Bytes → Option ℕ → Bool
personal_at s none = false
personal_at s (some at) =
    if leb at 0 || at == length s - 1 then false else positive (index_byte (drop (at + 1) s) b'.')

unfoldable pub personal : Bytes → Bool
unfolding index_byte drop
personal s = personal_at s (index_byte s b'@')

abbrev pub is_hex : ℕ → Bool
is_hex b = (leb b'0' b && leb b b'9') || (leb b'a' b && leb b b'f') || (leb b'A' b && leb b b'F')

abbrev pub base32_crockford : ℕ → Bool
base32_crockford b =
    (leb b'0' b && leb b b'9') || (leb b'A' b && leb b b'Z') || (leb b'a' b && leb b b'z')

unfoldable pub is_all : Bytes → (ℕ → Bool) → Bool
is_all [] ok = true
is_all (b ∷ s) ok = ok b && is_all s ok

unfoldable pub all_digits : Bytes → Bool
unfolding is_all is_digit
all_digits s = if is_nil s then false else is_all s is_digit

-- the loop of isUUID from index `i` on
unfoldable pub hex_from : ℕ → Bytes → Bool
hex_from i [] = true
hex_from i (b ∷ s) =
    let rest = hex_from (i + 1) s in
    if i == 8 || i == 13 || i == 18 || i == 23 then rest else if not (is_hex b) then false else rest

unfoldable pub is_uuid : Bytes → Bool
unfolding byte_at hex_from
is_uuid s =
    if not (length s == 36)
      || not (byte_at s 8 == b'-')
      || not (byte_at s 13 == b'-')
      || not (byte_at s 18 == b'-')
      || not (byte_at s 23 == b'-')
    then false
    else hex_from 0 s

-- rest[i:] after the loop over digits
unfoldable pub skip_digits : Bytes → Bytes
unfolding is_digit
skip_digits [] = []
skip_digits (b ∷ s) = let rest = skip_digits s in if is_digit b then rest else b ∷ s

unfoldable pub zone : Bytes → Bool
unfolding str_eq byte_at slice all_digits
zone rest =
    if str_eq rest (codes "Z") || str_eq rest (codes "z")
    then true
    else length rest == 6
      && (byte_at rest 0 == b'+' || byte_at rest 0 == b'-')
      && all_digits (slice rest 1 3)
      && byte_at rest 3 == b':'
      && all_digits (slice rest 4 6)

-- the seconds' fraction, if there is one, and the zone
unfoldable pub fraction : Bytes → Bool
unfolding zone skip_digits byte_at drop is_digit
fraction rest =
    if ltb 1 (length rest) && byte_at rest 0 == b'.'
    then (if not (is_digit (byte_at rest 1)) then false else zone (skip_digits (drop 1 rest)))
    else zone rest

unfoldable pub timestamp : Bytes → Bool
unfolding slice byte_at all_digits fraction drop
timestamp s =
    if ltb (length s) 20 || ltb 35 (length s)
    then false
    else if not (all_digits (slice s 0 4))
        || not (byte_at s 4 == b'-')
        || not (all_digits (slice s 5 7))
        || not (byte_at s 7 == b'-')
        || not (all_digits (slice s 8 10))
    then false
    else if not (byte_at s 10 == b'T') && not (byte_at s 10 == b't')
    then false
    else if not (all_digits (slice s 11 13))
        || not (byte_at s 13 == b':')
        || not (all_digits (slice s 14 16))
        || not (byte_at s 16 == b':')
        || not (all_digits (slice s 17 19))
    then false
    else fraction (drop 19 s)

unfoldable pub identifier : Bytes → Bool
unfolding is_uuid is_all all_digits timestamp
identifier s =
    if length s == 0 || ltb 64 (length s)
    then false
    else if is_uuid s
    then true
    else if length s == 26 && is_all s base32_crockford
    then true
    else if (length s == 24 || length s == 32 || length s == 40 || length s == 64)
        && is_all s is_hex
    then true
    else if all_digits s
    then true
    else timestamp s
