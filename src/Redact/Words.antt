-- ===== src/Redact/Words.antt =====
-- core/observe/redact.go: which field names are sensitive. Text is bytes; a byte of a multi-byte
-- character is no letter, digit or upper-case letter, as the character itself is none.
use howl_go.Prelude.{
  ℕ, ◌+◌, Bool, false, not, ◌&&◌, ◌||◌, Option, none, some, List, [], ◌∷◌, ◌++◌, Bytes, codes,
  str_eq, leb, if◌then◌else◌,
}

unfoldable pub is_digit : ℕ → Bool
is_digit c = leb b'0' c && leb c b'9'

unfoldable pub is_upper : ℕ → Bool
is_upper c = leb b'A' c && leb c b'Z'

unfoldable pub is_alnum : ℕ → Bool
unfolding is_digit
is_alnum c = (leb b'a' c && leb c b'z') || (leb b'A' c && leb c b'Z') || is_digit c

abbrev pub lower_byte : ℕ → ℕ
lower_byte c = if is_upper c then c + 32 else c

-- strings.ToLower, for the letters and digits that a word holds
abbrev pub to_lower : Bytes → Bytes
to_lower [] = []
to_lower (c ∷ s) = lower_byte c ∷ to_lower s

abbrev pub flush : Bytes → List Bytes → List Bytes
flush [] out = out
flush (c ∷ s) out = to_lower (c ∷ s) ∷ out

-- i > 0 && !isUpper(runes[i-1])
abbrev pub after_lower : Option ℕ → Bool
after_lower none = false
after_lower (some p) = not (is_upper p)

-- i+1 < len(runes) && !isUpper(runes[i+1]) && !isDigit(runes[i+1])
abbrev pub before_lower : Bytes → Bool
before_lower [] = false
before_lower (n ∷ _) = not (is_upper n) && not (is_digit n)

-- the loop of words, with the rune before and the word so far
unfoldable pub words_from : Option ℕ → Bytes → Bytes → List Bytes
words_from prev word [] = flush word []
words_from prev word (r ∷ rest) =
    let skip = flush word (words_from (some r) [] rest) in
    let start = flush word (words_from (some r) (r ∷ []) rest) in
    let longer = words_from (some r) (word ++ r ∷ []) rest in
    if not (is_alnum r)
    then skip
    else if is_upper r && after_lower prev
    then start
    else if is_upper r && before_lower rest
    then start
    else longer

unfoldable pub words : Bytes → List Bytes
unfolding words_from
words field = words_from none [] field

abbrev pub sensitive_words : List Bytes
sensitive_words =
    codes "email"
    ∷ codes "emails"
    ∷ codes "mail"
    ∷ codes "password"
    ∷ codes "passwd"
    ∷ codes "pwd"
    ∷ codes "pass"
    ∷ codes "secret"
    ∷ codes "token"
    ∷ codes "key"
    ∷ codes "apikey"
    ∷ codes "auth"
    ∷ codes "authorization"
    ∷ codes "credential"
    ∷ codes "credentials"
    ∷ codes "cookie"
    ∷ codes "session"
    ∷ codes "otp"
    ∷ codes "pin"
    ∷ codes "phone"
    ∷ codes "tel"
    ∷ codes "telephone"
    ∷ codes "mobile"
    ∷ codes "msisdn"
    ∷ codes "address"
    ∷ codes "street"
    ∷ codes "postcode"
    ∷ codes "zip"
    ∷ codes "zipcode"
    ∷ codes "ssn"
    ∷ codes "nino"
    ∷ codes "tfn"
    ∷ codes "passport"
    ∷ codes "licence"
    ∷ codes "license"
    ∷ codes "dob"
    ∷ codes "birth"
    ∷ codes "birthdate"
    ∷ codes "birthday"
    ∷ codes "born"
    ∷ codes "card"
    ∷ codes "pan"
    ∷ codes "cvv"
    ∷ codes "cvc"
    ∷ codes "iban"
    ∷ codes "bsb"
    ∷ codes "latitude"
    ∷ codes "longitude"
    ∷ codes "lat"
    ∷ codes "lng"
    ∷ []

unfoldable pub member : Bytes → List Bytes → Bool
unfolding str_eq
member w [] = false
member w (v ∷ vs) = str_eq v w || member w vs

unfoldable pub any_member : List Bytes → List Bytes → Bool
unfolding member
any_member [] vs = false
any_member (w ∷ ws) vs = member w vs || any_member ws vs

unfoldable pub sensitive : Bytes → Bool
sensitive field = any_member (words field) sensitive_words
