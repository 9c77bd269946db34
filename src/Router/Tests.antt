-- ===== src/Router/Tests.antt =====
-- The theorems on core/router/router.go at a small table.
use howl_go.Prelude.{
  ◌≡◌, refl, ◌↔◌, true, false, none, some, List, [], ◌∷◌, ◌++◌, ℕ, Bytes, codes, is_some,
}
use howl_go.Router.{Route, slash, split_path, match, lookup_route, component}
use howl_go.Router.Matching.{Fits, match_iff, match-slashes, match-literal}
use howl_go.Router.Lookup.{or_else, first_static, first_match, lookup_route_lem}
use howl_go.Router.Tables.{component_lem}
use mathlib.Core.List.{foldr}

-- A page is the list of what it is made of.
abbrev route_at : Bytes → Route (List ℕ) ℕ
route_at pattern = record {
  pattern = pattern;
  label = [];
  page = 0 ∷ [];
  head = none;
  mount = none;
  unmount = none;
  layouts = (λ inner. 1 ∷ inner) ∷ (λ inner. 2 ∷ inner) ∷ [];
  client = false;
  raw = false;
  data_path = [];
  cache = 0;
}

abbrev any_user : Route (List ℕ) ℕ
any_user = route_at (codes "/user/{id}")

abbrev own_user : Route (List ℕ) ℕ
own_user = route_at (codes "/user/me")

abbrev table : List (Route (List ℕ) ℕ)
table = any_user ∷ own_user ∷ route_at (codes "/about") ∷ []

match_iff_example :
    (is_some (match any_user (codes "/user/7")) ≡ true)
    ↔ Fits (split_path any_user.pattern) (split_path (codes "/user/7"))
match_iff_example = match_iff any_user (codes "/user/7")

match-slashes_example :
    (match any_user (slash ∷ codes "user/7") ≡ match any_user (codes "user/7"))
    × (match any_user (codes "user/7" ++ slash ∷ []) ≡ match any_user (codes "user/7"))
match-slashes_example = match-slashes any_user (codes "user/7")

own_matched : match own_user (codes "/user/me/") ≡ some []
unfolding match
own_matched = refl

match-literal_example : split_path own_user.pattern ≡ split_path (codes "/user/me/")
match-literal_example = match-literal own_user (codes "/user/me/") [] own_matched refl

lookup_route_lem_example :
    lookup_route table (codes "/user/me")
    ≡ or_else (first_static table (codes "/user/me")) (first_match table (codes "/user/me"))
lookup_route_lem_example = lookup_route_lem table (codes "/user/me")

-- The static route wins over the one before it.
lookup_own : lookup_route table (codes "/user/me") ≡ some (own_user, [])
unfolding lookup_route match
lookup_own = refl

component_lem_example :
    component own_user ≡ foldr (λ layout inner. layout inner) own_user.page own_user.layouts
component_lem_example = component_lem own_user
