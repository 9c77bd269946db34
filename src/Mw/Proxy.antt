-- ===== src/Mw/Proxy.antt =====
-- core/mw/proxy.go: which requests are forwarded, and under which path. The forwarding itself is
-- httputil.ReverseProxy's.
pub mod Prefixes
pub mod Forwarding
pub mod Cookies
mod Tests
use howl_go.Prelude.{
  ℕ, zero, suc, ◌+◌, Bool, ◌&&◌, ◌||◌, not, true, false, Option, none, some, List, [], ◌∷◌, Bytes,
  codes, str_eq, has_prefix, has_last, trim, split, is_nil, length, ltb, ◌==◌, if◌then◌else◌,
}

-- The fields that the choice reads.
pub record Proxy : Type 0 where
  pub paths : List Bytes
  pub strip_prefix : Bool

-- the text up to the next slash
unfoldable pub segment : Bytes → Bytes
segment [] = []
segment (c ∷ s) = let later = segment s in if c == b'/' then [] else c ∷ later

-- the text from the next slash on
unfoldable pub beyond : Bytes → Bytes
beyond [] = []
beyond (c ∷ s) = let later = beyond s in if c == b'/' then c ∷ s else later

abbrev pub wildcard : Bytes → Bool
wildcard want = has_prefix (b'{' ∷ []) want && has_last b'}' want

abbrev pub fits : Bytes → Bytes → Bool
fits want got = str_eq got want || (wildcard want && not (is_nil got))

-- the loop over the segments of the prefix, at the index i of the path, with the path from there on
unfoldable pub under_segments : List Bytes → Bytes → ℕ → Option ℕ
unfolding segment beyond
under_segments [] path i = some i
under_segments (want ∷ wants) [] i = none
under_segments (want ∷ wants) (c ∷ path) i =
    let later = under_segments wants (beyond path) (i + 1 + length (segment path)) in
    if (c == b'/') && fits want (segment path) then later else none

unfoldable pub under_prefix : Bytes → Bytes → Option ℕ
unfolding trim split
under_prefix prefix path =
    let trimmed = trim b'/' prefix in
    if is_nil trimmed then some 0 else under_segments (split b'/' trimmed) path 0

-- the loop over the prefixes
unfoldable pub first_match : List Bytes → Bytes → Option ℕ
first_match [] path = none
first_match (prefix ∷ prefixes) path = elim (under_prefix prefix path) [
  | some n ↦ some n
  | none ↦ first_match prefixes path
]

unfoldable pub match : Proxy → Bytes → Option ℕ
match p path = if is_nil p.paths then some 0 else first_match p.paths path

-- path[n:]
unfoldable pub drop_bytes : ℕ → Bytes → Bytes
drop_bytes zero s = s
drop_bytes (suc n) [] = []
drop_bytes (suc n) (c ∷ s) = drop_bytes n s

abbrev pub or_root : Bytes → Bytes
or_root rest = if is_nil rest then codes "/" else rest

-- Handler: the path that is forwarded, or none for a request that goes on to the next handler
unfoldable pub forwarded : Proxy → Bytes → Option Bytes
forwarded p path = elim (match p path) [
  | none ↦ none
  | some n ↦ some (if p.strip_prefix && ltb 0 n then or_root (drop_bytes n path) else path)
]
