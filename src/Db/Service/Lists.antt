-- ===== src/Db/Service/Lists.antt =====
-- GetMany, Find, One and Count of db/service.go, with their cache.
use howl_go.Prelude.{
  ℕ, ◌++◌, Bool, true, false, not, ◌&&◌, ◌||◌, Option, none, some, List, [], ◌∷◌, Bytes, codes,
  Dict, lookup, insert, is_nil, is_some, if◌then◌else◌,
}
use howl_go.Db.Value.{Fields}
use howl_go.Db.Service.{
  not_found, Result, ok, failed, Opts, DocumentType, Backend, after, decoded, unpaged,
}
use howl_go.Db.Service.Reads.{
  Query, Texts, Setup, Reader, filter, find_options, counted, by_ids, projected, decode_all,
  keyspace, key_if, hit, store, discard, asked, opened,
}

module _ {F S T K : Type 0} (D : DocumentType F T) (B : Backend F S) (C : Setup K)
    (X : Texts F) where
  abbrev pub all_decoded : List (Fields F) → Reader S K → Result (List T) × Reader S K
  all_decoded rows s = decoded (decode_all D rows) s (λ docs. (ok docs, s))

  -- the read of Find
  unfoldable pub find_rows : Query F → Reader S K → Result (List (Fields F)) × Reader S K
  find_rows q s =
      after (asked D B C X s (B.find_many (filter q) (find_options q) s.backend))
        (λ rows s'. (ok (projected q rows), s'))

  abbrev pub keep_rows : Bytes → Option Bytes → ℕ → Reader S K → Reader S K
  keep_rows key none at s = s
  keep_rows key (some blob) at s = store D B C X key blob at s

  -- the load of Find under a key
  unfoldable pub find_loaded : Bytes → Query F → ℕ → Reader S K → Result (List T) × Reader S K
  find_loaded key q at s =
      after (find_rows q s) (λ rows s'. all_decoded rows (keep_rows key (X.show_rows rows) at s'))

  abbrev pub find_hit :
      Bytes → Query F → ℕ → Option Bytes × Reader S K → Result (List T) × Reader S K
  find_hit key q at (none, s) = find_loaded key q at s
  find_hit key q at (some blob, s) = elim (X.parse_rows blob) [
    | some rows ↦ all_decoded rows s
    | none ↦ find_loaded key q at (discard D B C X key s)
  ]

  abbrev pub find_keyed : Query F → ℕ → ℕ → Option Bytes × Reader S K → Result (List T) × Reader S K
  find_keyed q now at (none, s) = after (find_rows q s) all_decoded
  find_keyed q now at (some key, s) = find_hit key q at (hit D B C X key now s)

  unfoldable pub find : Query F → ℕ → ℕ → Reader S K → Result (List T) × Reader S K
  find q now at s =
      find_keyed q now at (key_if D B C X (not q.session && C.finds) (codes "find") (X.digest q) s)

  abbrev pub first_of : List T → Reader S K → Result T × Reader S K
  first_of [] s = (failed not_found, s)
  first_of (doc ∷ docs) s = (ok doc, s)

  unfoldable pub one : Query F → ℕ → ℕ → Reader S K → Result T × Reader S K
  one q now at s = after (find (record q { limit = 1 }) now at s) first_of

  -- the read of Count
  unfoldable pub count_rows : Query F → Reader S K → Result ℕ × Reader S K
  count_rows q s = asked D B C X s (B.count (filter q) s.backend)

  unfoldable pub count_loaded : Bytes → Query F → ℕ → Reader S K → Result ℕ × Reader S K
  count_loaded key q at s =
      after (count_rows q s) (λ n s'. (ok n, store D B C X key (X.itoa n) at s'))

  abbrev pub count_hit : Bytes → Query F → ℕ → Option Bytes × Reader S K → Result ℕ × Reader S K
  count_hit key q at (none, s) = count_loaded key q at s
  count_hit key q at (some raw, s) = elim (X.parse_int raw) [
    | some n ↦ (ok n, s)
    | none ↦ count_loaded key q at (discard D B C X key s)
  ]

  abbrev pub count_keyed : Query F → ℕ → ℕ → Option Bytes × Reader S K → Result ℕ × Reader S K
  count_keyed q now at (none, s) = count_rows q s
  count_keyed q now at (some key, s) = count_hit key q at (hit D B C X key now s)

  unfoldable pub count : Query F → ℕ → ℕ → Reader S K → Result ℕ × Reader S K
  count q now at s =
      count_keyed q now at
        (key_if D B C X (not q.session && C.finds) (codes "count") (X.digest (counted q)) s)

  -- an id of GetMany that is read from the cache, or missed
  abbrev pub many_hit :
      Bytes
      → (Dict T → List Bytes → Reader S K → Result (Dict T × List Bytes) × Reader S K)
      → Dict T
      → List Bytes
      → Option Bytes × Reader S K
      → Result (Dict T × List Bytes) × Reader S K
  many_hit id next out misses (none, s) = next out (misses ++ id ∷ []) s
  many_hit id next out misses (some raw, s) =
      after (opened D B C X raw s) (λ doc s'. next (insert id doc out) misses s')

  -- the loop over the ids, with the documents found and the ids missed so far
  unfoldable pub many_ids :
      Option Bytes
      → ℕ
      → List Bytes
      → Dict T
      → List Bytes
      → Reader S K
      → Result (Dict T × List Bytes) × Reader S K
  many_ids space now [] out misses s = (ok (out, misses), s)
  many_ids space now (id ∷ ids) out misses s =
      let skipped = many_ids space now ids out misses s in
      let missed = many_ids space now ids out (misses ++ id ∷ []) s in
      if is_some (lookup id out) || is_nil id then skipped else elim space [
        | none ↦ missed
        | some at ↦
            many_hit id (many_ids space now ids) out misses
              (hit D B C X (at ++ (codes "get:" ++ id)) now s)
      ]

  abbrev pub keep_many : Option Bytes → Bytes → Fields F → ℕ → Reader S K → Reader S K
  keep_many none id raw at s = s
  keep_many (some space) id raw at s =
      store D B C X (space ++ (codes "get:" ++ id)) (X.show raw) at s

  -- the loop over the rows
  unfoldable pub many_rows :
      Option Bytes → ℕ → List (Fields F) → Dict T → Reader S K → Result (Dict T) × Reader S K
  many_rows space at [] out s = (ok out, s)
  many_rows space at (raw ∷ rows) out s = decoded (D.decode raw) s (λ doc.
      let id = (D.envelope doc).doc_id in
      many_rows space at rows (insert id doc out) (keep_many space id raw at s))

  abbrev pub many_missed :
      Bool → Option Bytes → ℕ → Dict T × List Bytes → Reader S K → Result (Dict T) × Reader S K
  many_missed with_deleted space at (out, misses) s =
      if is_nil misses
      then (ok out, s)
      else after (asked D B C X s (B.find_many (by_ids misses with_deleted) unpaged s.backend))
          (λ rows s'. many_rows space at rows out s')

  abbrev pub many_keyed :
      List Bytes → Opts → ℕ → ℕ → Option Bytes × Reader S K → Result (Dict T) × Reader S K
  many_keyed ids o now at (space, s) =
      after (many_ids space now ids [] [] s) (many_missed o.with_deleted space at)

  abbrev pub space_if : Bool → Reader S K → Option Bytes × Reader S K
  space_if true s = keyspace D B C X s
  space_if false s = (none, s)

  unfoldable pub get_many : List Bytes → Opts → ℕ → ℕ → Reader S K → Result (Dict T) × Reader S K
  get_many ids o now at s =
      if is_nil ids
      then (ok [], s)
      else many_keyed ids o now at (space_if (not o.session && C.gets && not o.with_deleted) s)
