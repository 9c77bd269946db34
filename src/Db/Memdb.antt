-- ===== src/Db/Memdb.antt =====
-- db/memdb/memdb.go: the in-process backend. One collection is a map from ids to documents; the mutex
-- serialises the methods, so each is a function of the state. A JSON text that a method takes or
-- gives stands as what it decodes to.
pub mod Paths
pub mod Locking
pub mod Paging
pub mod Queries
pub mod SoftDelete
use howl_go.Prelude.{
  ℕ, zero, suc, ◌+◌, ◌-◌, Bool, true, false, not, ◌&&◌, ◌||◌, Option, none, some, List, [], ◌∷◌,
  ◌++◌, Bytes, codes, str_eq, Dict, lookup, insert, delete, ltb, leb, ◌==◌, if◌then◌else◌, length,
  is_nil, is_some,
}
use howl_go.Db.Value.{
  Json, null, bool, num, str, arr, obj, Fields, end, field, Numbers, get, put, remove, get_path,
  Order, less, same, greater, str_compare,
}
use howl_go.Db.Filter.{
  SortKey, id_path, version_path, meta_path, deleted_at, path_of, is_null, matches, compare,
}
use howl_go.Db.Filter.Sorting.{sort_stable}

-- What a method answers beside the state: `invalid` is a document that does not decode.
pub data Reply {ℓ} (A : Type ℓ) : Type ℓ where
  ok : A → Reply A
  not_found invalid : Reply A

-- UpdateOptions without the session
pub record UpdateOptions : Type 0 where
  pub expected_version : ℕ
  pub unset : List Bytes
  pub no_bump : Bool

-- FindOptions without the session; a limit or skip below zero is given as 0
pub record FindOptions : Type 0 where
  pub sort : List SortKey
  pub limit : ℕ
  pub skip : ℕ

abbrev pub Docs : Type 0 → Type 0
Docs F = Dict (Fields F)

abbrev comes_before : Bytes → Bytes → Bool
comes_before a b = elim (str_compare a b) [ greater ↦ false | _ ↦ true ]

unfoldable pub insert_id : Bytes → List Bytes → List Bytes
unfolding str_compare
insert_id id [] = id ∷ []
insert_id id (j ∷ ids) =
    let rest = insert_id id ids in if comes_before id j then id ∷ j ∷ ids else j ∷ rest

-- slices.Sort
unfoldable pub sort_ids : List Bytes → List Bytes
unfolding insert_id
sort_ids [] = []
sort_ids (id ∷ ids) = insert_id id (sort_ids ids)

abbrev bump_count : Bytes → Dict ℕ → Dict ℕ
bump_count name counts =
    insert name (elim (lookup name counts) [ none ↦ 1 | some n ↦ n + 1 ]) counts

module _ {F : Type 0} where
  abbrev pub keys : Docs F → List Bytes
  keys [] = []
  keys ((id, _) ∷ docs) = id ∷ keys docs

  unfoldable pub sorted_ids : Docs F → List Bytes
  unfolding sort_ids
  sorted_ids docs = sort_ids (keys docs)

  -- b.docs[id], the nil map for a missing one
  abbrev pub or_nil_map : Option (Fields F) → Fields F
  or_nil_map none = end
  or_nil_map (some doc) = doc

  unfoldable pub doc_at : Docs F → Bytes → Fields F
  doc_at docs id = or_nil_map (lookup id docs)

  abbrev child : Option (Json F) → Fields F
  child (some (obj m)) = m
  child _ = end

  -- set, from the node on
  unfoldable pub set_path : List Bytes → Json F → Fields F → Fields F
  unfolding get put
  set_path [] value node = node
  set_path (seg ∷ []) value node = put seg value node
  set_path (seg ∷ next ∷ segs) value node =
      put seg (obj (set_path (next ∷ segs) value (child (get seg node)))) node

  abbrev put_child : Bytes → Option (Json F) → (Fields F → Fields F) → Fields F → Fields F
  put_child seg (some (obj m)) change node = put seg (obj (change m)) node
  put_child seg _ change node = node

  unfoldable pub unset_path : List Bytes → Fields F → Fields F
  unfolding get put remove
  unset_path [] node = node
  unset_path (seg ∷ []) node = remove seg node
  unset_path (seg ∷ next ∷ segs) node = put_child seg (get seg node) (unset_path (next ∷ segs)) node

  unfoldable pub set_all : List (Bytes × Json F) → Fields F → Fields F
  set_all [] doc = doc
  set_all ((path, value) ∷ paths) doc = set_all paths (set_path (path_of path) value doc)

  unfoldable pub unset_all : List Bytes → Fields F → Fields F
  unset_all [] doc = doc
  unset_all (path ∷ paths) doc = unset_all paths (unset_path (path_of path) doc)

  abbrev pub meta_of : Option (Json F) → Fields F
  meta_of (some (obj m)) = m
  meta_of _ = end

  abbrev pub set_null : Option (Json F) → Bool
  set_null none = true
  set_null (some v) = is_null v

  unfoldable pub deleted : Fields F → Bool
  unfolding get is_null
  deleted doc = not (set_null (get deleted_at (meta_of (get meta_path doc))))

  -- Insert, of a decoded document
  unfoldable pub insert_doc : Bytes → Option (Fields F) → Docs F → Reply (Unit {0}) × Docs F
  unfolding insert put
  insert_doc id none docs = (invalid, docs)
  insert_doc id (some value) docs = (ok tt, insert id (put id_path (str id) value) docs)

  unfoldable pub delete_one : Bytes → Docs F → Reply (Fields F) × Docs F
  delete_one id docs = elim (lookup id docs) [
    | none ↦ (not_found, docs)
    | some doc ↦ (ok doc, delete id docs)
  ]

  -- UnsetField over the entries of the map, with the number of documents that had the field
  unfoldable pub unset_field : Bytes → Docs F → ℕ × Docs F
  unfolding get remove
  unset_field name [] = (0, [])
  unset_field name ((id, doc) ∷ docs) =
      let (n, rest) = unset_field name docs in
      if is_some (get name doc)
      then (n + 1, (id, remove name doc) ∷ rest)
      else (n, (id, doc) ∷ rest)

  abbrev count_keys : Fields F → Dict ℕ → Dict ℕ
  count_keys end counts = counts
  count_keys (field name _ m) counts = count_keys m (bump_count name counts)

  -- KeyCounts
  unfoldable pub key_counts_from : Docs F → Dict ℕ → ℕ → Dict ℕ × ℕ
  unfolding deleted lookup insert
  key_counts_from [] counts total = (counts, total)
  key_counts_from ((id, doc) ∷ docs) counts total =
      let seen = key_counts_from docs (count_keys doc counts) (total + 1) in
      let rest = key_counts_from docs counts total in if deleted doc then rest else seen

  unfoldable pub key_counts : Docs F → Dict ℕ × ℕ
  unfolding key_counts_from
  key_counts docs = key_counts_from docs [] 0

  abbrev pub drop_docs : ℕ → List (Fields F) → List (Fields F)
  drop_docs zero hits = hits
  drop_docs (suc n) [] = []
  drop_docs (suc n) (d ∷ hits) = drop_docs n hits

  abbrev pub take_docs : ℕ → List (Fields F) → List (Fields F)
  take_docs zero hits = []
  take_docs (suc n) [] = []
  take_docs (suc n) (d ∷ hits) = d ∷ take_docs n hits

  module _ (N : Numbers F) where
    abbrev current_version : Option (Json F) → F
    current_version (some (num x)) = x
    current_version _ = N.zero_value

    -- apply
    unfoldable pub apply : Fields F → List (Bytes × Json F) → UpdateOptions → Fields F
    apply doc paths o =
        let changed = unset_all o.unset (set_all paths doc) in
        if o.no_bump
        then changed
        else put version_path (num (N.plus_one (current_version (get version_path changed))))
            changed

    abbrev has_version : Option (Json F) → ℕ → Bool
    has_version (some (num x)) v = N.int64 x == v
    has_version _ v = false

    unfoldable pub update_at :
        Option (Fields F)
        → Bytes
        → List (Bytes × Json F)
        → UpdateOptions
        → Docs F
        → Reply (Fields F) × Docs F
    update_at none id paths o docs = (not_found, docs)
    update_at (some doc) id paths o docs =
        if not (o.expected_version == 0)
          && not (has_version (get version_path doc) o.expected_version)
        then (not_found, docs)
        else (ok (apply doc paths o), insert id (apply doc paths o) docs)

    unfoldable pub update_paths :
        Bytes → List (Bytes × Json F) → UpdateOptions → Docs F → Reply (Fields F) × Docs F
    unfolding update_at
    update_paths id paths o docs = update_at (lookup id docs) id paths o docs

    -- the loop of FindOne over the sorted ids
    unfoldable pub find_first : List Bytes → Fields F → Docs F → Reply (Fields F)
    find_first [] filter docs = not_found
    find_first (id ∷ ids) filter docs =
        let rest = find_first ids filter docs in
        if matches N (doc_at docs id) filter then ok (doc_at docs id) else rest

    unfoldable pub find_one : Fields F → Docs F → Reply (Fields F)
    unfolding find_first
    find_one filter docs = find_first (sorted_ids docs) filter docs

    -- the loop of FindMany over the sorted ids
    unfoldable pub find_hits : List Bytes → Fields F → Docs F → List (Fields F)
    find_hits [] filter docs = []
    find_hits (id ∷ ids) filter docs =
        let rest = find_hits ids filter docs in
        if matches N (doc_at docs id) filter then doc_at docs id ∷ rest else rest

    -- FindMany after the loop: sorted, skipped, cut
    unfoldable pub page : List (Fields F) → FindOptions → List (Fields F)
    page hits o =
        let sorted = if is_nil o.sort then hits else sort_stable N o.sort hits in
        let rest =
          if ltb 0 o.skip && leb (length sorted) o.skip then [] else drop_docs o.skip sorted in
        if ltb 0 o.limit && ltb o.limit (length rest) then take_docs o.limit rest else rest

    unfoldable pub find_many : Fields F → FindOptions → Docs F → List (Fields F)
    unfolding find_hits page
    find_many filter o docs = page (find_hits (sorted_ids docs) filter docs) o

    -- Count, over the entries of the map
    unfoldable pub count : Fields F → Docs F → ℕ
    count filter [] = 0
    count filter ((id, doc) ∷ docs) =
        let n = count filter docs in if matches N doc filter then n + 1 else n

    -- the loop of UpdatePathsWhere over the sorted ids
    unfoldable pub update_hits :
        List Bytes → Fields F → List (Bytes × Json F) → UpdateOptions → Docs F → ℕ × Docs F
    update_hits [] filter paths o docs = (0, docs)
    update_hits (id ∷ ids) filter paths o docs =
        let skip = update_hits ids filter paths o docs in
        let (n, changed) =
          update_hits ids filter paths o (insert id (apply (doc_at docs id) paths o) docs) in
        if not (matches N (doc_at docs id) filter) then skip else (n + 1, changed)

    unfoldable pub update_paths_where :
        Fields F → List (Bytes × Json F) → UpdateOptions → Docs F → ℕ × Docs F
    unfolding update_hits
    update_paths_where filter paths o docs = update_hits (sorted_ids docs) filter paths o docs
