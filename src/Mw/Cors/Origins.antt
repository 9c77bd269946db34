-- ===== src/Mw/Cors/Origins.antt =====
-- The origins that core/mw/cors.go lets read an answer.
use howl_go.Prelude.{
  ℕ, ◌≡◌, refl, sym, ◌∙◌, ◌⊎◌, inl, inr, Bool, false, Option, none, some, List, [], ◌∷◌, ◌++◌,
  Bytes, codes, str_eq, is_nil, if◌then◌else◌, arith, Bool-cases,
}
use howl_go.Mw.Cors.{
  Cors, Request, HeaderWrite, set, add, is_preflight, allow_from, allow, stamp, preflight, answer,
  handler,
}

-- the value that a name is left with by the calls of Set
abbrev later : Option Bytes → Option Bytes → Option Bytes
later none o = o
later (some v) o = some v

unfoldable pub written : Bytes → List HeaderWrite → Option Bytes
unfolding str_eq
written k [] = none
written k (add j v ∷ ws) = written k ws
written k (set j v ∷ ws) = later (written k ws) (if str_eq j k then some v else none)

abbrev pub allow_origin : Bytes
allow_origin = codes "Access-Control-Allow-Origin"

abbrev pub allow_credentials : Bytes
allow_credentials = codes "Access-Control-Allow-Credentials"

later_assoc : (a b c : Option Bytes) → later (later a b) c ≡ later a (later b c)
later_assoc none b c = refl
later_assoc (some v) b c = refl

later-none : (o : Option Bytes) → later o none ≡ o
later-none none = refl
later-none (some v) = refl

written_append :
    (k : Bytes) (vs ws : List HeaderWrite)
    → written k (vs ++ ws) ≡ later (written k ws) (written k vs)
unfolding written
written_append k [] ws = sym (later-none (written k ws))
written_append k (add j v ∷ vs) ws = written_append k vs ws
written_append k (set j v ∷ vs) ws =
    rw (written_append k vs ws) (later_assoc (written k ws) (written k vs) _)

allow_from_lem :
    (equal_fold : Bytes → Bytes → Bool) (origins : List Bytes) (credentials : Bool)
    (origin v : Bytes)
    → allow_from equal_fold origins credentials origin ≡ some v
    → (v ≡ origin) ⊎ ((v ≡ codes "*") × (credentials ≡ false))
unfolding allow_from
allow_from_lem equal_fold [] credentials origin v h = absurd cc
allow_from_lem equal_fold (o ∷ origins) credentials origin v h =
    ground (arith, allow_from_lem equal_fold origins credentials origin v)

module _ (itoa : ℕ → Bytes) where
  written-preflight :
      (c : Cors) (r : Request)
      → (written allow_origin (preflight itoa c r) ≡ none)
        × (written allow_credentials (preflight itoa c r) ≡ none)
  unfolding preflight written str_eq
  written-preflight c r = ground arith

  written-stamp :
      (c : Cors) (v : Bytes)
      → (written allow_origin (stamp c v) ≡ some v)
        × (written allow_credentials (stamp c v)
            ≡ (if c.credentials then some (codes "true") else none))
  unfolding stamp written str_eq
  written-stamp c v = ground arith

  abbrev credentials_for : Cors → Option Bytes → Option Bytes
  credentials_for c none = none
  credentials_for c (some v) = if c.credentials then some (codes "true") else none

  written-answer :
      (c : Cors) (r : Request) (o : Option Bytes)
      → (written allow_origin (answer itoa c r o).0 ≡ o)
        × (written allow_credentials (answer itoa c r o).0 ≡ credentials_for c o)
  unfolding written
  written-answer c r none = (refl, refl)
  written-answer c r (some v) =
      let (origin, credentials) = written-stamp c v in
      let (no_origin, no_credentials) = written-preflight c r in
      elim (Bool-cases (is_preflight r)) [
        | inl options ↦ rw options (
          written_append allow_origin (stamp c v) (preflight itoa c r)
              ∙ rw (no_origin, origin) refl,
          written_append allow_credentials (stamp c v) (preflight itoa c r)
              ∙ rw (no_credentials, credentials) refl,
        )
        | inr other ↦ rw other (origin, credentials)
      ]

  granted :
      (c : Cors) (r : Request) (o : Option Bytes) (origin v : Bytes)
      → ((u : Bytes) → o ≡ some u → (u ≡ origin) ⊎ ((u ≡ codes "*") × (c.credentials ≡ false)))
      → written allow_origin (answer itoa c r o).0 ≡ some v
      → (v ≡ origin) ⊎ ((v ≡ codes "*") × (written allow_credentials (answer itoa c r o).0 ≡ none))
  granted c r o origin v h e =
      let (is_o, credentials) = written-answer c r o in
      let here : o ≡ some v = sym is_o ∙ e in
      elim (h v here) [
        | inl own ↦ inl own
        | inr (star, closed) ↦ inr (star, credentials ∙ rw (here, closed) refl)
      ]

  -- An answer that grants an origin grants the request's own, or it grants every origin and then
  -- allows no credentials.
  pub wildcard_without_credentials :
      (equal_fold : Bytes → Bytes → Bool) (c : Cors) (r : Request) (v : Bytes)
      → written allow_origin (handler itoa equal_fold c r).0 ≡ some v
      → (v ≡ r.header (codes "Origin"))
        ⊎ ((v ≡ codes "*") × (written allow_credentials (handler itoa equal_fold c r).0 ≡ none))
  unfolding handler allow written
  wildcard_without_credentials equal_fold c r v h =
      elim (Bool-cases (is_nil (r.header (codes "Origin")))) [
        | inl same_site ↦ absurd (ground arith)
        | inr cross ↦
            let origin = r.header (codes "Origin") in
            let o = allow_from equal_fold c.origins c.credentials origin in
            rw cross (
              granted c r o origin v
                (λ u. allow_from_lem equal_fold c.origins c.credentials origin u) (rw cross at h))
      ]
