-- ===== src/Router.antt =====
-- core/router/router.go: the route table, matching a path, and the lists derived from the table.
-- A rendered component and a lifecycle hook are opaque types.
pub mod Matching
pub mod Lookup
pub mod Tables
mod Tests
use howl_go.Prelude.{
  ℕ, suc, Bool, true, false, not, ◌&&◌, ◌||◌, Option, none, some, List, [], ◌∷◌, ◌++◌, reverse,
  String, Bytes, codes, str_eq, has_prefix, has_last, contains_byte, trim, trim_suffix, split, Dict,
  insert, ◌==◌, if◌then◌else◌, length, is_nil, is_some,
}

pub record Route (Component Hook : Type 0) : Type 0 where
  pub pattern : Bytes
  pub label : Bytes
  pub page : Component
  pub head : Option Component
  pub mount : Option Hook
  pub unmount : Option Hook
  pub layouts : List (Component → Component)
  pub client : Bool
  pub raw : Bool
  pub data_path : Bytes
  pub cache : ℕ

abbrev pub slash : ℕ
slash = b'/'

-- split: no segments for the root
unfoldable pub split_path : Bytes → List Bytes
unfolding trim split
split_path p = let q = trim slash p in if is_nil q then [] else split slash q

abbrev tail_of : Bytes → Bytes
tail_of [] = []
tail_of (_ ∷ s) = s

unfoldable pub drop_last : Bytes → Bytes
drop_last [] = []
drop_last (c ∷ []) = []
drop_last (c ∷ d ∷ s) = c ∷ drop_last (d ∷ s)

-- the test on a `{param}` segment
unfoldable pub is_param : Bytes → Bool
unfolding has_prefix has_last
is_param seg = has_prefix (b'{' ∷ []) seg && has_last b'}' seg

-- seg[1:len(seg)-1]
unfoldable pub param_name : Bytes → Bytes
unfolding drop_last
param_name seg = drop_last (tail_of seg)

-- the loop of Match over both lists of segments, which have one length
unfoldable pub match_segments : List Bytes → List Bytes → Dict Bytes → Option (Dict Bytes)
unfolding is_param param_name insert str_eq
match_segments [] _ params = some params
match_segments (_ ∷ _) [] params = none
match_segments (seg ∷ want) (g ∷ got) params =
    let bound = match_segments want got (insert (param_name seg) g params) in
    let same = match_segments want got params in
    if is_param seg then bound else if not (str_eq seg g) then none else same

-- strings.Count(s, string(c)) for one byte c
unfoldable pub count_byte : ℕ → Bytes → ℕ
count_byte c [] = 0
count_byte c (d ∷ s) = let rest = count_byte c s in if c == d then suc rest else rest

-- wrap, for each layout from the last to the first: the list comes reversed
unfoldable pub wrap_each {ℓ} : {C : Type ℓ} → List (C → C) → C → C
wrap_each [] c = c
wrap_each (l ∷ ls) c = wrap_each ls (l c)

-- Under, with the active path as an argument
unfoldable pub under : Bytes → Bytes → Bool
unfolding str_eq has_prefix trim_suffix
under cur prefix =
    if str_eq cur prefix
    then true
    else if is_nil prefix || str_eq prefix (slash ∷ [])
    then false
    else has_prefix (trim_suffix slash prefix ++ slash ∷ []) cur

module _ {Component Hook : Type 0} where
  unfoldable pub match : Route Component Hook → Bytes → Option (Dict Bytes)
  unfolding match_segments split_path
  match r path =
      let want = split_path r.pattern in
      let got = split_path path in
      if not (length want == length got) then none else match_segments want got []

  -- the loop of Lookup, with the first dynamic match
  unfoldable pub lookup_from :
      List (Route Component Hook)
      → Bytes
      → Option (Route Component Hook × Dict Bytes)
      → Option (Route Component Hook × Dict Bytes)
  lookup_from [] path dyn = dyn
  lookup_from (r ∷ rs) path dyn = elim (match r path) [
    | none ↦ lookup_from rs path dyn
    | some params ↦
        let first = lookup_from rs path (some (r, params)) in
        let kept = lookup_from rs path dyn in
        if length params == 0 then some (r, params) else if is_some dyn then kept else first
  ]

  unfoldable pub lookup_route :
      List (Route Component Hook) → Bytes → Option (Route Component Hook × Dict Bytes)
  unfolding lookup_from
  lookup_route rs path = lookup_from rs path none

  unfoldable pub component : Route Component Hook → Component
  unfolding wrap_each
  component r = wrap_each (reverse r.layouts) r.page

  unfoldable pub nav : List (Route Component Hook) → List (Route Component Hook)
  unfolding contains_byte count_byte trim
  nav [] = []
  nav (r ∷ rs) =
      let out = nav rs in
      if contains_byte b'{' r.pattern
      then out
      else if count_byte slash (trim slash r.pattern) == 0
      then r ∷ out
      else out

  -- PageData, where nil and the empty map are the empty dictionary
  unfoldable pub page_data_from : List (Route Component Hook) → Dict Bytes → Dict Bytes
  unfolding insert
  page_data_from [] out = out
  page_data_from (r ∷ rs) out =
      page_data_from rs (if is_nil r.data_path then out else insert r.pattern r.data_path out)

  unfoldable pub page_data : List (Route Component Hook) → Dict Bytes
  unfolding page_data_from
  page_data rs = page_data_from rs []

  unfoldable pub raw_routes : List (Route Component Hook) → List Bytes
  raw_routes [] = []
  raw_routes (r ∷ rs) = let out = raw_routes rs in if r.raw then r.pattern ∷ out else out

  unfoldable pub needs_wasm : List (Route Component Hook) → List Bytes
  needs_wasm [] = []
  needs_wasm (r ∷ rs) =
      let out = needs_wasm rs in
      if r.client || is_some r.mount || is_some r.unmount then r.pattern ∷ out else out

  unfoldable pub children : List (Route Component Hook) → Bytes → List (Route Component Hook)
  unfolding has_prefix trim_suffix
  children [] prefix = []
  children (r ∷ rs) prefix =
      let out = children rs prefix in
      if has_prefix (trim_suffix slash prefix ++ slash ∷ []) r.pattern then r ∷ out else out

  unfoldable pub static_file : Route Component Hook → Bytes
  unfolding trim
  static_file r =
      let p = trim slash r.pattern in
      if is_nil p then codes "index.html" else p ++ codes "/index.html"
