-- ===== src/Mw/Cors.antt =====
-- core/mw/cors.go. strings.EqualFold and strconv.Itoa are parameters. What the middleware does to the
-- response is the list of its header writes, and whether the next handler runs or 204 goes out.
pub mod Origins
use howl_go.Prelude.{
  ℕ, ◌/◌, Bool, true, false, not, ◌&&◌, Option, none, some, List, [], ◌∷◌, ◌++◌, Bytes, codes,
  str_eq, is_nil, ltb, if◌then◌else◌,
}

pub record Cors : Type 0 where
  pub origins : List Bytes
  pub methods : List Bytes
  pub headers : List Bytes
  pub expose_headers : List Bytes
  pub credentials : Bool
  -- nanoseconds, a negative one as 0
  pub max_age : ℕ

pub record Request : Type 0 where
  pub method : Bytes
  pub header : Bytes → Bytes

-- h.Set and h.Add
pub data HeaderWrite : Type 0 where
  set add : Bytes → Bytes → HeaderWrite

pub data Outcome : Type 0 where
  next no_content : Outcome

unfoldable pub is_preflight : Request → Bool
unfolding str_eq
is_preflight r =
    str_eq r.method (codes "OPTIONS")
    && not (is_nil (r.header (codes "Access-Control-Request-Method")))

-- strings.Join(list, ", ")
abbrev join_list : List Bytes → Bytes
join_list [] = []
join_list (w ∷ []) = w
join_list (w ∷ v ∷ ws) = w ++ codes ", " ++ join_list (v ∷ ws)

abbrev allowed_headers : Cors → Bytes → List HeaderWrite
allowed_headers c want =
    if not (is_nil c.headers)
    then set (codes "Access-Control-Allow-Headers") (join_list c.headers) ∷ []
    else if not (is_nil want)
    then set (codes "Access-Control-Allow-Headers") want ∷ []
    else []

abbrev allowed_methods : List Bytes → List Bytes
allowed_methods ms = if is_nil ms then codes "GET" ∷ codes "HEAD" ∷ codes "POST" ∷ [] else ms

module _ (equal_fold : Bytes → Bytes → Bool) where
  -- the loop of allow
  unfoldable pub allow_from : List Bytes → Bool → Bytes → Option Bytes
  unfolding str_eq
  allow_from [] credentials origin = none
  allow_from (o ∷ origins) credentials origin =
      let rest = allow_from origins credentials origin in
      if str_eq o (codes "*")
      then (if credentials then some origin else some (codes "*"))
      else if equal_fold o origin
      then some origin
      else rest

  unfoldable pub allow : Cors → Bytes → Option Bytes
  unfolding allow_from
  allow c origin = allow_from c.origins c.credentials origin

-- the headers of every answer to an allowed origin
unfoldable pub stamp : Cors → Bytes → List HeaderWrite
stamp c allowed =
    (set (codes "Access-Control-Allow-Origin") allowed ∷ [])
    ++ (if not (str_eq allowed (codes "*")) then add (codes "Vary") (codes "Origin") ∷ [] else [])
    ++ (if c.credentials
        then set (codes "Access-Control-Allow-Credentials") (codes "true") ∷ []
        else [])
    ++ (if not (is_nil c.expose_headers)
        then set (codes "Access-Control-Expose-Headers") (join_list c.expose_headers) ∷ []
        else [])

module _ (itoa : ℕ → Bytes) where
  -- the headers of a preflight beside them
  unfoldable pub preflight : Cors → Request → List HeaderWrite
  preflight c r =
      (add (codes "Vary") (codes "Access-Control-Request-Method")
        ∷ add (codes "Vary") (codes "Access-Control-Request-Headers")
        ∷ set (codes "Access-Control-Allow-Methods") (join_list (allowed_methods c.methods))
        ∷ [])
      ++ allowed_headers c (r.header (codes "Access-Control-Request-Headers"))
      ++ (if ltb 0 c.max_age
          then set (codes "Access-Control-Max-Age") (itoa (c.max_age / 1000000000)) ∷ []
          else [])

  abbrev pub answer : Cors → Request → Option Bytes → List HeaderWrite × Outcome
  answer c r none = ([], if is_preflight r then no_content else next)
  answer c r (some allowed) =
      if not (is_preflight r)
      then (stamp c allowed, next)
      else (stamp c allowed ++ preflight c r, no_content)

  module _ (equal_fold : Bytes → Bytes → Bool) where
    unfoldable pub handler : Cors → Request → List HeaderWrite × Outcome
    unfolding allow stamp preflight is_preflight
    handler c r =
        let origin = r.header (codes "Origin") in
        if is_nil origin then ([], next) else answer c r (allow equal_fold c origin)
