-- ===== src/Mw/Tests.antt =====
-- The theorems on the middleware of core/mw at small requests.
use howl_go.Prelude.{
  ◌≡◌, refl, ◌↔◌, ◌⊎◌, true, false, Option, none, some, List, [], ◌∷◌, Bytes, codes, str_eq,
  trim_suffix, has_prefix, if◌then◌else◌,
}
use howl_go.Mw.{under}
use howl_go.Mw.Guards.{Below, under_iff}
use howl_go.Mw.Recorder.{wrap, Operation, set_status, send, push, perform_all}
use howl_go.Mw.Recorder.Once.{Sent, one_status_line}
use howl_go.Mw.Csrf
use howl_go.Mw.Csrf.{Csrf, passed, safe_method}
use howl_go.Mw.Csrf.Checks.{Vouched, token_of, passed_iff}
use howl_go.Mw.Cors
use howl_go.Mw.Cors.{Cors}
use howl_go.Mw.Cors.Origins.{written, allow_origin, allow_credentials, wildcard_without_credentials}

under_iff_example : (under (codes "/admin/users") (codes "/admin/") ≡ true) ↔ (
    (trim_suffix b'/' (codes "/admin/") ≡ [])
    ⊎ Below (trim_suffix b'/' (codes "/admin/")) (codes "/admin/users"))
under_iff_example = under_iff (codes "/admin/users") (codes "/admin/")

-- A neighbour that only begins with the prefix is not under it.
under_neighbour : under (codes "/administrator") (codes "/admin") ≡ false
unfolding under trim_suffix has_prefix
under_neighbour = refl

abbrev calls : List Operation
calls = send (codes "ok") 2 ∷ set_status 404 ∷ push ∷ []

one_status_line_example :
    Sent
      (perform_all calls (wrap [])).wrote
      (perform_all calls (wrap [])).below
      (perform_all calls (wrap [])).status
one_status_line_example = one_status_line calls

abbrev defaults : Csrf
defaults = record {
  cookie_name = [];
  header_name = [];
  field_name = [];
  path = [];
  secure = true;
  http_only = false;
  trusted_origins = [];
  has_on_reject = false;
}

abbrev token : Bytes
token = codes "0123456789abcdef"

abbrev posted : Csrf.Request
posted = record {
  method = codes "POST";
  host = codes "a.example";
  cookie = λ name. some token;
  header = λ name. if str_eq name (codes "X-CSRF-Token") then token else [];
  form = none;
}

abbrev no_url : Bytes → Option (Bytes × Bytes)
no_url s = none

passed_iff_example : ((Csrf.handler str_eq no_url defaults [] posted).1 ≡ passed token) ↔ (
    (token ≡ token_of defaults [] posted)
    × ((safe_method posted.method ≡ true)
        ⊎ Vouched str_eq no_url defaults posted (token_of defaults [] posted)))
passed_iff_example = passed_iff str_eq no_url defaults [] posted token

abbrev open_to_all : Cors
open_to_all = record {
  origins = codes "*" ∷ [];
  methods = [];
  headers = [];
  expose_headers = [];
  credentials = false;
  max_age = 0;
}

abbrev asked : Cors.Request
asked = record {
  method = codes "GET";
  header = λ name. if str_eq name (codes "Origin") then codes "https://b" else [];
}

granted_all :
    written allow_origin (Cors.handler (λ n. []) str_eq open_to_all asked).0 ≡ some (codes "*")
unfolding written Cors.handler str_eq
granted_all = refl

wildcard_without_credentials_example :
    (codes "*" ≡ asked.header (codes "Origin"))
    ⊎ ((codes "*" ≡ codes "*")
        × (written allow_credentials (Cors.handler (λ n. []) str_eq open_to_all asked).0 ≡ none))
wildcard_without_credentials_example =
    wildcard_without_credentials (λ n. []) str_eq open_to_all asked (codes "*") granted_all
