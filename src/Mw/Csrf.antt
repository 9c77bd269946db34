-- ===== src/Mw/Csrf.antt =====
-- core/mw/csrf.go. The standard library's strings.EqualFold and url.Parse are parameters, and so is
-- the token that crypto/rand draws. A request is what the handler reads of it: `form` is what
-- ParseForm makes of the body, `none` where it fails.
pub mod Checks
use howl_go.Prelude.{
  Bool, true, false, not, ◌&&◌, ◌||◌, Option, none, some, List, [], ◌∷◌, ◌++◌, Bytes, codes, str_eq,
  has_prefix, is_nil, length, leb, if◌then◌else◌,
}

pub record Csrf : Type 0 where
  pub cookie_name : Bytes
  pub header_name : Bytes
  pub field_name : Bytes
  pub path : Bytes
  pub secure : Bool
  pub http_only : Bool
  pub trusted_origins : List Bytes
  pub has_on_reject : Bool

pub record Request : Type 0 where
  pub method : Bytes
  pub host : Bytes
  pub cookie : Bytes → Option Bytes
  pub header : Bytes → Bytes
  pub form : Option (Bytes → Bytes)

pub record SetCookie : Type 0 where
  pub name : Bytes
  pub value : Bytes
  pub cookie_path : Bytes
  pub cookie_secure : Bool
  pub cookie_http_only : Bool

-- What becomes of the request: passed on with the token on its context, given to OnReject with it,
-- or answered with 403.
pub data Outcome : Type 0 where
  passed on_reject : Bytes → Outcome
  forbidden : Outcome

abbrev pub or : Bytes → Bytes → Bytes
or v fallback = if is_nil v then fallback else v

unfoldable pub safe_method : Bytes → Bool
unfolding str_eq
safe_method m =
    str_eq m (codes "GET")
    || str_eq m (codes "HEAD")
    || str_eq m (codes "OPTIONS")
    || str_eq m (codes "TRACE")

unfoldable pub constant_equal : Bytes → Bytes → Bool
unfolding str_eq
constant_equal a b = if is_nil a || is_nil b then false else str_eq a b

unfoldable pub submitted : Request → Bytes → Bytes → Bytes
unfolding has_prefix
submitted r header field =
    if not (is_nil (r.header header))
    then r.header header
    else if has_prefix (codes "application/x-www-form-urlencoded") (r.header (codes "Content-Type"))
    then elim (r.form) [ none ↦ [] | some values ↦ values field ]
    else []

-- the token of the cookie, empty without one of at least 16 bytes
unfoldable pub cookie_token : Option Bytes → Bytes
cookie_token none = []
cookie_token (some value) = if leb 16 (length value) then value else []

module _ (equal_fold : Bytes → Bytes → Bool) (parse_url : Bytes → Option (Bytes × Bytes)) where
  abbrev any_fold : List Bytes → Bytes → Bool
  any_fold [] origin = false
  any_fold (t ∷ ts) origin = equal_fold t origin || any_fold ts origin

  unfoldable pub own_or_trusted : Csrf → Bytes → Bytes → Bool
  own_or_trusted c host origin =
      equal_fold origin (codes "https://" ++ host)
      || equal_fold origin (codes "http://" ++ host)
      || any_fold c.trusted_origins origin

  -- originOK from the Referer on
  abbrev referer_ok : Csrf → Bytes → Option (Bytes × Bytes) → Bool
  referer_ok c host none = false
  referer_ok c host (some (scheme, from)) = own_or_trusted c host (scheme ++ codes "://" ++ from)

  unfoldable pub origin_ok : Csrf → Request → Bool
  unfolding own_or_trusted
  origin_ok c r =
      if is_nil (r.header (codes "Origin"))
      then (if is_nil (r.header (codes "Referer"))
          then true
          else referer_ok c r.host (parse_url (r.header (codes "Referer"))))
      else own_or_trusted c r.host (r.header (codes "Origin"))

  abbrev reject : Csrf → Bytes → Outcome
  reject c token = if c.has_on_reject then on_reject token else forbidden

  abbrev set_token : Csrf → Bytes → SetCookie
  set_token c token = record {
    name = or c.cookie_name (codes "csrf");
    value = token;
    cookie_path = or c.path (codes "/");
    cookie_secure = c.secure;
    cookie_http_only = c.http_only;
  }

  -- the handler once it has its token
  abbrev decide : Csrf → Request → Bytes → Outcome
  decide c r token =
      if safe_method r.method
      then passed token
      else if not (origin_ok c r)
          || not (
              constant_equal token (
                submitted r (or c.header_name (codes "X-CSRF-Token"))
                  (or c.field_name (codes "csrf_token"))))
      then reject c token
      else passed token

  -- Handler, with the token newToken would draw: the cookie it sets and what becomes of the request
  unfoldable pub handler : Csrf → Bytes → Request → Option SetCookie × Outcome
  unfolding cookie_token safe_method constant_equal submitted origin_ok
  handler c fresh r =
      let token = cookie_token (r.cookie (or c.cookie_name (codes "csrf"))) in
      if is_nil token
      then (some (set_token c fresh), decide c r fresh)
      else (none, decide c r token)
