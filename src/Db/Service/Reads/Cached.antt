-- ===== src/Db/Service/Reads/Cached.antt =====
-- A document that was read is read again from the cache: db/service.go, over the store of core/cache.
use howl_go.Prelude.{
  ℕ, ◌+◌, ◌≡◌, refl, ◌∙◌, ◌≤◌, ◌++◌, Bool, true, false, Option, none, some, ◌∷◌, Bytes, codes,
  length, is_nil, ltb, arith,
}
use howl_go.Cache
use howl_go.Cache.{Lru}
use howl_go.Cache.Order.{IsValid}
use howl_go.Cache.Invariant.{get-IsValid}
use howl_go.Cache.Tiers.{lru_store, get-set}
use howl_go.Db.Value.{Fields}
use howl_go.Db.Service.{ok, Opts, DocumentType, Backend}
use howl_go.Db.Service.Reads.{
  Texts, Setup, Reader, space, keyspace, key, hit, found_in, store, get_where, get_hit, get,
}

-- a service that caches in its process, by the default adapter
abbrev pub in_process : ℕ → ℕ → Bool → Bytes → Bytes → Setup Lru
in_process ttl max_entry finds prefix name = record {
  adapter = lru_store;
  version = none;
  ttl = ttl;
  max_entry = max_entry;
  gets = true;
  finds = finds;
  prefix = prefix;
  name = name;
}

-- the options of a read that the cache takes part in
abbrev pub cacheable : Bytes → Bool → Opts
cacheable actor hard = record { actor = actor; with_deleted = false; hard = hard; session = false }

module _ {F S T : Type 0} (D : DocumentType F T) (B : Backend F S) (X : Texts F) (ttl max_entry : ℕ)
    (finds : Bool) (prefix name actor : Bytes) (hard : Bool) where
  abbrev setup : Setup Lru
  setup = in_process ttl max_entry finds prefix name

  abbrev options : Opts
  options = cacheable actor hard

  abbrev pub get_key : Bytes → Reader S Lru → Bytes
  get_key id s = space D B setup X 0 s.local ++ (codes "get" ++ (b':' ∷ id))

  get-keyed :
      (id : Bytes) (now at : ℕ) (s : Reader S Lru)
      → is_nil id ≡ false
      → get D B setup X id options now at s
        ≡ get_hit D B setup X
            (get_key id s)
            id
            options
            at
            (found_in D B setup X (Cache.get (get_key id s) now s.cache) s)
  unfolding get key keyspace hit
  get-keyed id now at s named = rw (get, named) refl

  -- the answer that the cache gives
  get_hit-held :
      (key id raw : Bytes) (at : ℕ) (p : Option Bytes × Lru) (s : Reader S Lru) (fields : Fields F)
      (doc : T)
      → p.0 ≡ some raw
      → X.parse raw ≡ some fields
      → D.decode fields ≡ some doc
      → get_hit D B setup X key id options at (found_in D B setup X p s)
        ≡ (ok doc, record s { cache = p.1; hits = s.hits + 1 })
  get_hit-held key id raw at (none, k) s fields doc e parsed made = cc
  get_hit-held key id raw at (some v, k) s fields doc e parsed made =
      ground (arith, e, parsed, made)

  -- the load, where the cache gives none and the backend answers
  get_hit-loaded :
      (key id : Bytes) (at : ℕ) (p : Option Bytes × Lru) (s : Reader S Lru) (raw : Fields F)
      (doc : T) (b : S)
      → p.0 ≡ none
      → B.find_one (get_where D B setup X id false) s.backend ≡ (ok raw, b)
      → D.decode raw ≡ some doc
      → ltb max_entry (length (X.show raw)) ≡ false
      → get_hit D B setup X key id options at (found_in D B setup X p s) ≡ (
        ok doc,
        record s {
          backend = b;
          cache = Cache.set key (X.show raw) ttl at p.1;
          misses = s.misses + 1;
        },
      )
  unfolding store
  get_hit-loaded key id at (none, k) s raw doc b e answered made fits =
      rw (answered, fits, made) refl
  get_hit-loaded key id at (some v, k) s raw doc b e answered made fits = cc

  -- A Get that the backend answers is answered from the cache for as long as its entry lives: the same
  -- document, with no call of the backend and one more hit. The service has an LRU store of its own and
  -- no entry under the key yet, the document is not too large, and it is read back from its JSON.
  pub get-again :
      (id : Bytes) (now at later later_at : ℕ) (s : Reader S Lru) (raw : Fields F) (doc : T) (b : S)
      → is_nil id ≡ false
      → IsValid s.cache
      → (Cache.get (get_key id s) now s.cache).0 ≡ none
      → B.find_one (get_where D B setup X id false) s.backend ≡ (ok raw, b)
      → D.decode raw ≡ some doc
      → ltb max_entry (length (X.show raw)) ≡ false
      → X.parse (X.show raw) ≡ some raw
      → later ≤ at + ttl
      → (s' : Reader S Lru) × (s'' : Reader S Lru) × (get D B setup X id options now at s
          ≡ (ok doc, s'))
        × (get D B setup X id options later later_at s' ≡ (ok doc, s''))
        × (s''.backend ≡ s'.backend)
        × (s''.hits ≡ s'.hits + 1)
        × (s''.misses ≡ s'.misses)
  get-again id now at later later_at s raw doc b named v missed answered made fits back live =
      let k = (Cache.get (get_key id s) now s.cache).1 in
      let kept : Lru = Cache.set (get_key id s) (X.show raw) ttl at k in
      let s' : Reader S Lru = record s { backend = b; cache = kept; misses = s.misses + 1 } in
      let found =
        get-set (get_key id s) (X.show raw) ttl at later k
          (get-IsValid (get_key id s) now s.cache v) live in
      (
        s',
        record s' { cache = (Cache.get (get_key id s) later kept).1; hits = s'.hits + 1 },
        get-keyed id now at s named
            ∙ get_hit-loaded (get_key id s) id at (Cache.get (get_key id s) now s.cache) s raw doc b
                missed answered made fits,
        get-keyed id later later_at s' named
            ∙ get_hit-held (get_key id s) id (X.show raw) later_at
                (Cache.get (get_key id s) later kept) s' raw doc found back made,
        refl,
        refl,
        refl,
      )
