-- ===== src/Router/Lookup.antt =====
-- Lookup of core/router/router.go against a description: static matches before dynamic ones.
use howl_go.Prelude.{
  ◌≡◌, refl, Option, none, some, List, [], ◌∷◌, Bytes, Dict, length, ◌==◌, if◌then◌else◌, arith,
  Option-cases, inl, inr,
}
use howl_go.Router.{Route, match, lookup_from, lookup_route}

abbrev pub or_else {ℓ} : {A : Type ℓ} → Option A → Option A → Option A
or_else none b = b
or_else (some a) b = some a

abbrev without_params : Option (Dict Bytes) → Option (Dict Bytes)
without_params none = none
without_params (some params) = if length params == 0 then some params else none

module _ {Component Hook : Type 0} where
  abbrev tagged :
      Route Component Hook → Option (Dict Bytes) → Option (Route Component Hook × Dict Bytes)
  tagged r none = none
  tagged r (some params) = some (r, params)

  -- The first route that matches without parameters.
  abbrev pub first_static :
      List (Route Component Hook) → Bytes → Option (Route Component Hook × Dict Bytes)
  first_static [] path = none
  first_static (r ∷ rs) path =
      or_else (tagged r (without_params (match r path))) (first_static rs path)

  -- The first route that matches.
  abbrev pub first_match :
      List (Route Component Hook) → Bytes → Option (Route Component Hook × Dict Bytes)
  first_match [] path = none
  first_match (r ∷ rs) path = or_else (tagged r (match r path)) (first_match rs path)

  lookup_from-lem :
      (rs : List (Route Component Hook)) (path : Bytes)
      (dyn : Option (Route Component Hook × Dict Bytes))
      → lookup_from rs path dyn ≡ or_else (first_static rs path) (or_else dyn (first_match rs path))
  unfolding lookup_from
  lookup_from-lem [] path none = refl
  lookup_from-lem [] path (some d) = refl
  lookup_from-lem (r ∷ rs) path dyn = elim (Option-cases (match r path)) [
    | inl e ↦ rw (e, lookup_from) (lookup_from-lem rs path dyn)
    | inr (params, e) ↦
        rw (e, lookup_from)
          (ground (arith, lookup_from-lem rs path dyn, lookup_from-lem rs path (some (r, params))))
  ]

  -- Lookup returns the first route that matches without parameters, wherever it stands in the
  -- table; if there is none, the first route that matches; and nothing if no route matches.
  pub lookup_route_lem :
      (rs : List (Route Component Hook)) (path : Bytes)
      → lookup_route rs path ≡ or_else (first_static rs path) (first_match rs path)
  unfolding lookup_route
  lookup_route_lem rs path = lookup_from-lem rs path none
