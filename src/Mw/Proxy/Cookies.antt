-- ===== src/Mw/Proxy/Cookies.antt =====
-- stripCookieDomain of core/mw/proxy.go. strings.EqualFold and strings.TrimSpace are parameters.
use howl_go.Prelude.{
  ◌≡◌, Bool, false, List, [], ◌∷◌, Bytes, codes, split, join, All, ◌==◌, if◌then◌else◌,
}

-- the text before the first equals sign: the name that strings.Cut gives
unfoldable pub before_equals : Bytes → Bytes
before_equals [] = []
before_equals (c ∷ s) = let later = before_equals s in if c == b'=' then [] else c ∷ later

module _ (equal_fold : Bytes → Bytes → Bool) (trim_space : Bytes → Bytes) where
  abbrev pub is_domain : Bytes → Bool
  is_domain attr = equal_fold (before_equals (trim_space attr)) (codes "domain")

  -- the loop over the attributes
  unfoldable pub kept_attributes : List Bytes → List Bytes
  kept_attributes [] = []
  kept_attributes (attr ∷ attrs) =
      let rest = kept_attributes attrs in if is_domain attr then rest else attr ∷ rest

  abbrev pub kept_parts : List Bytes → List Bytes
  kept_parts [] = []
  kept_parts (pair ∷ attrs) = pair ∷ kept_attributes attrs

  -- one cookie of the loop
  unfoldable pub strip_cookie : Bytes → Bytes
  unfolding split join
  strip_cookie cookie = join b';' (kept_parts (split b';' cookie))

  -- The parts of a cookie that has no Domain.
  pub data Undomained : List Bytes → Type 0 where
    undomained :
        (pair : Bytes) (attrs : List Bytes)
        → All (λ attr. is_domain attr ≡ false) attrs
        → Undomained (pair ∷ attrs)
