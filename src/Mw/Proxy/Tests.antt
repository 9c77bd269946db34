-- ===== src/Mw/Proxy/Tests.antt =====
-- The theorems on the paths of core/mw/proxy.go at one prefix with a wildcard.
use howl_go.Prelude.{
  ℕ, ◌≡◌, refl, ◌↔◌, ◌≢◌, ◌⊎◌, true, none, some, [], ◌∷◌, Bytes, codes, str_eq, trim, trim_left,
  split, join, has_prefix, has_last,
}
use howl_go.Mw.Proxy.{
  Proxy, segment, beyond, under_segments, under_prefix, first_match, match, drop_bytes, forwarded,
}
use howl_go.Mw.Proxy.Prefixes.{Covered, under_prefix_iff}
use howl_go.Mw.Proxy.Forwarding.{Rooted, rooted, forwarded-Rooted}
use howl_go.Mw.Proxy.Cookies.{before_equals, kept_attributes, strip_cookie}

abbrev restore : Bytes
restore = codes "/admin/{table}/"

abbrev stripping : Proxy
stripping = record { paths = restore ∷ []; strip_prefix = true }

abbrev covered : ℕ
covered = 12

under_prefix_iff_example : (under_prefix restore (codes "/admin/users/7") ≡ some covered) ↔ (
    ((trim b'/' restore ≡ []) × (covered ≡ 0))
    ⊎ ((trim b'/' restore ≢ [])
        × Covered (split b'/' (trim b'/' restore)) (codes "/admin/users/7") covered))
under_prefix_iff_example = under_prefix_iff restore (codes "/admin/users/7") covered

-- a neighbour is not under the prefix, and a wildcard is not empty
neighbour : under_prefix (codes "/admin") (codes "/administrator") ≡ none
unfolding under_prefix under_segments segment beyond trim trim_left split str_eq has_prefix has_last
neighbour = refl

no_table : under_prefix restore (codes "/admin//7") ≡ none
unfolding under_prefix under_segments segment beyond trim trim_left split str_eq has_prefix has_last
no_table = refl

stripped : forwarded stripping (codes "/admin/users/7") ≡ some (codes "/7")
unfolding forwarded match first_match under_prefix under_segments segment beyond trim trim_left
    split str_eq has_prefix has_last drop_bytes
stripped = refl

forwarded-Rooted_example : Rooted (codes "/7")
forwarded-Rooted_example =
    forwarded-Rooted stripping (codes "/admin/users/7") (codes "/7")
      (rooted (codes "admin/users/7")) stripped

-- a comparison and a trim for texts in lower case with spaces in front
abbrev cookie : Bytes
cookie = codes "sid=1; domain=up.example; path=/"

undomained_cookie : strip_cookie str_eq (trim_left b' ') cookie ≡ codes "sid=1; path=/"
unfolding strip_cookie split join kept_attributes before_equals trim_left str_eq
undomained_cookie = refl
