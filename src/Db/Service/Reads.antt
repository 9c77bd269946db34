-- ===== src/Db/Service/Reads.antt =====
-- The reads of db/service.go and their cache, with the counters of db/cache.go. A document is known
-- by its fields, and its JSON text, that of a list of rows, the digest of a query and strconv are
-- parameters. A read alone on its key runs the load that share gives it (Db/Flight.antt). The cache
-- is read at one time and written at a later one.
pub mod Keys
pub mod Cached
mod Tests
use howl_go.Prelude.{
  ℕ, suc, ◌+◌, ◌-◌, ◌++◌, Bool, true, false, not, ◌&&◌, ◌||◌, Option, none, some, List, [], ◌∷◌,
  map, Bytes, codes, str_eq, Dict, lookup, insert, length, is_nil, is_some, ltb, if◌then◌else◌,
}
use howl_go.Cache.Tiers.{Store}
use howl_go.Db.Value.{Json, str, arr, obj, Items, nil, cons, Fields, end, field}
use howl_go.Db.Filter.{SortKey, id_path, op_in, active}
use howl_go.Db.Memdb.{FindOptions}
use howl_go.Db.Diff.{prune}
use howl_go.Db.Service.{
  not_found, undecodable, Result, ok, failed, Opts, DocumentType, Backend, after, decoded, unpaged,
}

-- Query
pub record Query (F : Type 0) : Type 0 where
  pub where_ : Fields F
  pub sort : List SortKey
  pub limit : ℕ
  pub skip : ℕ
  pub project : List Bytes
  pub with_deleted : Bool
  pub session : Bool

-- the JSON texts, the digest of a query, and strconv
pub record Texts (F : Type 0) : Type 0 where
  pub show : Fields F → Bytes
  pub parse : Bytes → Option (Fields F)
  pub show_rows : List (Fields F) → Option Bytes
  pub parse_rows : Bytes → Option (List (Fields F))
  pub digest : Query F → Bytes
  pub itoa : ℕ → Bytes
  pub parse_int : Bytes → Option ℕ

-- What a service with a cache is built with; `version` is there where the adapter is a Versioner, and
-- answers none where its version cannot be read.
pub record Setup (K : Type 0) : Type 0 where
  pub adapter : Store K
  pub version : Option (K → Option ℕ × K)
  pub ttl : ℕ
  pub max_entry : ℕ
  pub gets : Bool
  pub finds : Bool
  pub prefix : Bytes
  pub name : Bytes

-- The backend's state, the cache's, the local counter, and the counters of CacheStats.
pub record Reader (S K : Type 0) : Type 0 where
  pub backend : S
  pub cache : K
  pub local : ℕ
  pub hits : ℕ
  pub misses : ℕ
  pub bypassed : ℕ
  pub too_large : ℕ

module _ {F : Type 0} where
  -- the filter of a query
  unfoldable pub filter : Query F → Fields F
  filter q = if q.with_deleted then q.where_ else active q.where_

  unfoldable pub find_options : Query F → FindOptions
  find_options q = record { sort = q.sort; limit = q.limit; skip = q.skip }

  -- the query that a count's key is made of
  unfoldable pub counted : Query F → Query F
  counted q = record {
    where_ = q.where_;
    sort = [];
    limit = 0;
    skip = 0;
    project = [];
    with_deleted = q.with_deleted;
    session = false;
  }

  abbrev pub id_list : List Bytes → Items F
  id_list [] = nil
  id_list (id ∷ ids) = cons (str id) (id_list ids)

  unfoldable pub by_ids : List Bytes → Bool → Fields F
  by_ids ids with_deleted =
      let chosen : Fields F = field id_path (obj (field op_in (arr (id_list ids)) end)) end in
      if with_deleted then chosen else active chosen

  unfoldable pub projected : Query F → List (Fields F) → List (Fields F)
  projected q rows = if is_nil q.project then rows else map (λ raw. prune raw q.project) rows

module _ {F T : Type 0} (D : DocumentType F T) where
  unfoldable pub decode_all : List (Fields F) → Option (List T)
  decode_all [] = some []
  decode_all (raw ∷ rows) = elim (D.decode raw) [
    | none ↦ none
    | some doc ↦ elim (decode_all rows) [ none ↦ none | some docs ↦ some (doc ∷ docs) ]
  ]

module _ {F S T K : Type 0} (D : DocumentType F T) (B : Backend F S) (C : Setup K)
    (X : Texts F) where
  abbrev pub Read : Type 0 → Type 0
  Read A = Result A × Reader S K

  -- keyspace, at a shared and a local version
  unfoldable pub space : ℕ → ℕ → Bytes
  space shared local =
      C.prefix
      ++ (b':'
          ∷ (C.name ++ (codes ":v" ++ (X.itoa shared ++ (b'.' ∷ (X.itoa local ++ (b':' ∷ [])))))))

  abbrev pub at_version : Option ℕ × K → Reader S K → Option Bytes × Reader S K
  at_version (some v, k) s = (some (space v s.local), record s { cache = k })
  at_version (none, k) s = (none, record s { cache = k; bypassed = s.bypassed + 1 })

  unfoldable pub keyspace : Reader S K → Option Bytes × Reader S K
  keyspace s = elim (C.version) [
    | none ↦ (some (space 0 s.local), s)
    | some version ↦ at_version (version s.cache) s
  ]

  abbrev pub in_space : Bytes → Bytes → Option Bytes × Reader S K → Option Bytes × Reader S K
  in_space kind suffix (none, s) = (none, s)
  in_space kind suffix (some space, s) = (some (space ++ (kind ++ (b':' ∷ suffix))), s)

  unfoldable pub key : Bytes → Bytes → Reader S K → Option Bytes × Reader S K
  key kind suffix s = in_space kind suffix (keyspace s)

  -- the key of a read that the cache takes part in
  abbrev pub key_if : Bool → Bytes → Bytes → Reader S K → Option Bytes × Reader S K
  key_if false kind suffix s = (none, s)
  key_if true kind suffix s = key kind suffix s

  abbrev pub found_in : Option Bytes × K → Reader S K → Option Bytes × Reader S K
  found_in (none, k) s = (none, record s { cache = k; misses = s.misses + 1 })
  found_in (some raw, k) s = (some raw, record s { cache = k; hits = s.hits + 1 })

  unfoldable pub hit : Bytes → ℕ → Reader S K → Option Bytes × Reader S K
  hit key now s = found_in (C.adapter.get key now s.cache) s

  unfoldable pub store : Bytes → Bytes → ℕ → Reader S K → Reader S K
  store key value at s =
      if ltb C.max_entry (length value)
      then record s { too_large = s.too_large + 1 }
      else record s { cache = C.adapter.set key value C.ttl at s.cache }

  -- an entry that does not decode is dropped, and the read counts as a miss
  unfoldable pub discard : Bytes → Reader S K → Reader S K
  discard key s = record s {
    cache = C.adapter.del (key ∷ []) s.cache;
    hits = s.hits - 1;
    misses = s.misses + 1;
  }

  abbrev pub asked : {A : Type 0} → Reader S K → Result A × S → Read A
  asked s (r, b) = (r, record s { backend = b })

  -- a JSON text as a document, or its error
  abbrev pub opened : Bytes → Reader S K → Read T
  opened raw s = decoded (X.parse raw) s (λ doc. decoded (D.decode doc) s (λ t. (ok t, s)))

  -- the read that runs where there is no key, and the one that is stored under a key
  abbrev pub loaded : Option Bytes → ℕ → Result (Fields F) × Reader S K → Read T
  loaded none at r = after r (λ raw s. decoded (D.decode raw) s (λ t. (ok t, s)))
  loaded (some key) at r =
      after r (λ raw s.
        let s' = store key (X.show raw) at s in decoded (D.decode raw) s' (λ t. (ok t, s')))

  abbrev pub get_where : Bytes → Bool → Fields F
  get_where id with_deleted =
      if with_deleted then field id_path (str id) end else active (field id_path (str id) end)

  abbrev pub get_hit : Bytes → Bytes → Opts → ℕ → Option Bytes × Reader S K → Read T
  get_hit key id o at (some raw, s) = opened raw s
  get_hit key id o at (none, s) =
      loaded (some key) at (asked s (B.find_one (get_where id o.with_deleted) s.backend))

  abbrev pub get_keyed : Bytes → Opts → ℕ → ℕ → Option Bytes × Reader S K → Read T
  get_keyed id o now at (none, s) =
      loaded none at (asked s (B.find_one (get_where id o.with_deleted) s.backend))
  get_keyed id o now at (some key, s) = get_hit key id o at (hit key now s)

  unfoldable pub get : Bytes → Opts → ℕ → ℕ → Reader S K → Read T
  get id o now at s =
      if is_nil id
      then (failed not_found, s)
      else get_keyed id o now at
          (key_if (not o.session && C.gets && not o.with_deleted) (codes "get") id s)
