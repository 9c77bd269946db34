-- ===== src/Db/Memdb/Locking.antt =====
-- The optimistic lock of UpdatePaths (db/memdb/memdb.go).
use howl_go.Prelude.{
  ℕ, ◌≡◌, refl, ◌∙◌, ◌≢◌, true, false, not, ◌&&◌, Option, none, some, List, [], ◌∷◌, Bytes, str_eq,
  str_eq_iff, str_eq_refl, lookup, insert, lookup-insert, ◌==◌, ==_iff, All, arith, Bool-cases, inl,
  inr,
}
use howl_go.Db.Value.{Json, num, obj, Fields, Numbers, get, get-put, get-remove}
use howl_go.Db.Filter.{version_path, path_of}
use howl_go.Db.Memdb.{
  ok, not_found, UpdateOptions, Docs, set_path, unset_path, set_all, unset_all, apply, update_at,
  update_paths, has_version, current_version, put_child,
}

-- The path's first segment is another key.
abbrev pub Avoids : Bytes → List Bytes → Type 0
Avoids k [] = Unit
Avoids k (seg ∷ _) = seg ≢ k

abbrev pub PathsAvoid : {F : Type 0} → Bytes → List (Bytes × Json F) → Type 0
PathsAvoid k [] = Unit
PathsAvoid k ((path, _) ∷ paths) = Avoids k (path_of path) × PathsAvoid k paths

str_eq-ne : (j k : Bytes) → j ≢ k → str_eq j k ≡ false
str_eq-ne j k h = ground (arith, str_eq_iff j k)

module _ {F : Type 0} where
  get-put_child :
      (k seg : Bytes) (o : Option (Json F)) (change : Fields F → Fields F) (m : Fields F)
      → seg ≢ k
      → get k (put_child seg o change m) ≡ get k m
  get-put_child k seg (some (obj c)) change m h =
      get-put seg k (obj (change c)) m ∙ rw (str_eq-ne seg k h) refl
  get-put_child k seg _ change m h = refl

  get-set_path :
      (k : Bytes) (segs : List Bytes) (v : Json F) (m : Fields F)
      → Avoids k segs
      → get k (set_path segs v m) ≡ get k m
  unfolding set_path
  get-set_path k [] v m h = refl
  get-set_path k (seg ∷ []) v m h = ground (arith, get-put seg k v m, str_eq_iff seg k)
  get-set_path k (seg ∷ next ∷ segs) v m h = get-put seg k _ m ∙ rw (str_eq-ne seg k h) refl

  get-unset_path :
      (k : Bytes) (segs : List Bytes) (m : Fields F)
      → Avoids k segs
      → get k (unset_path segs m) ≡ get k m
  unfolding unset_path
  get-unset_path k [] m h = refl
  get-unset_path k (seg ∷ []) m h = ground (arith, get-remove seg k m, str_eq_iff seg k)
  get-unset_path k (seg ∷ next ∷ segs) m h =
      get-put_child k seg (get seg m) (unset_path (next ∷ segs)) m h

  get-set_all :
      (k : Bytes) (paths : List (Bytes × Json F)) (m : Fields F)
      → PathsAvoid k paths
      → get k (set_all paths m) ≡ get k m
  unfolding set_all
  get-set_all k [] m h = refl
  get-set_all k ((path, v) ∷ paths) m h =
      get-set_all k paths (set_path (path_of path) v m) h.1 ∙ get-set_path k (path_of path) v m h.0

  get-unset_all :
      (k : Bytes) (paths : List Bytes) (m : Fields F)
      → All (λ path. Avoids k (path_of path)) paths
      → get k (unset_all paths m) ≡ get k m
  unfolding unset_all
  get-unset_all k [] m h = refl
  get-unset_all k (path ∷ paths) m h =
      get-unset_all k paths (unset_path (path_of path) m) h.1
      ∙ get-unset_path k (path_of path) m h.0

  module _ (N : Numbers F) where
    -- The version after an update that bumps it and leaves its path alone.
    get-apply_version :
        (doc : Fields F) (paths : List (Bytes × Json F)) (o : UpdateOptions)
        → o.no_bump ≡ false
        → PathsAvoid version_path paths
        → All (λ path. Avoids version_path (path_of path)) o.unset
        → get version_path (apply N doc paths o)
          ≡ some (num (N.plus_one (current_version N (get version_path doc))))
    unfolding apply
    get-apply_version doc paths o bump sets unsets =
        let changed = unset_all o.unset (set_all paths doc) in
        let kept : get version_path changed ≡ get version_path doc =
          get-unset_all version_path o.unset (set_all paths doc) unsets
          ∙ get-set_all version_path paths doc sets in
        rw bump
          (get-put version_path version_path _ changed ∙ rw (str_eq_refl version_path, kept) refl)

    update_at-won :
        (found : Option (Fields F)) (id : Bytes) (p : List (Bytes × Json F)) (o : UpdateOptions)
        (docs : Docs F) (doc : Fields F)
        → (update_at N found id p o docs).0 ≡ ok doc
        → (old : Fields F) × (found ≡ some old)
          × ((not (o.expected_version == 0)
                && not (has_version N (get version_path old) o.expected_version))
              ≡ false)
          × (update_at N found id p o docs
              ≡ (ok (apply N old p o), insert id (apply N old p o) docs))
    unfolding update_at
    update_at-won none id p o docs doc h = cc
    update_at-won (some old) id p o docs doc h =
        elim (Bool-cases (
          not (o.expected_version == 0)
          && not (has_version N (get version_path old) o.expected_version))) [
            | inl refused ↦ absurd (ground arith)
            | inr passed ↦ (old, refl, passed, rw passed refl)
          ]

    update_at-refused :
        (found : Fields F) (id : Bytes) (p : List (Bytes × Json F)) (o : UpdateOptions)
        (docs : Docs F)
        → (not (o.expected_version == 0)
            && not (has_version N (get version_path found) o.expected_version))
          ≡ true
        → update_at N (some found) id p o docs ≡ (not_found, docs)
    unfolding update_at
    update_at-refused found id p o docs h = rw h refl

    has_version-num :
        (v : Option (Json F)) (n : ℕ) → has_version N v n ≡ true → N.int64 (current_version N v) ≡ n
    has_version-num none n h = cc
    has_version-num (some (num x)) n h = (==_iff _ _).0 h
    has_version-num (some _) n h = cc

    -- Of two updates of one document under the same expected version, other than zero, the second
    -- finds no document and changes nothing, if the first succeeds, bumps the version, and sets
    -- and unsets no path that begins at the version. It is assumed that adding one to a number of
    -- the expected version gives a number of another.
    pub lost_lock :
        (id : Bytes) (p q : List (Bytes × Json F)) (o o' : UpdateOptions) (docs : Docs F)
        (doc : Fields F)
        → (update_paths N id p o docs).0 ≡ ok doc
        → o.expected_version ≢ 0
        → o'.expected_version ≡ o.expected_version
        → o.no_bump ≡ false
        → PathsAvoid version_path p
        → All (λ path. Avoids version_path (path_of path)) o.unset
        → ((x : F) → N.int64 x ≡ o.expected_version → N.int64 (N.plus_one x) ≢ o.expected_version)
        → update_paths N id q o' (update_paths N id p o docs).1
          ≡ (not_found, (update_paths N id p o docs).1)
    unfolding update_paths
    lost_lock id p q o o' docs doc won some_version again bump sets unsets moves =
        let (old, here, passed, e) = update_at-won (lookup id docs) id p o docs doc won in
        let new = apply N old p o in
        let held : N.int64 (current_version N (get version_path old)) ≡ o.expected_version =
          has_version-num (get version_path old) o.expected_version (ground arith) in
        let next = N.plus_one (current_version N (get version_path old)) in
        let version : get version_path new ≡ some (num next) =
          get-apply_version old p o bump sets unsets in
        let stored : lookup id (insert id new docs) ≡ some new =
          lookup-insert id id new docs ∙ rw (str_eq_refl id) refl in
        let moved : N.int64 next ≢ o.expected_version =
          moves (current_version N (get version_path old)) held in
        rw (e, stored)
          (update_at-refused new id q o' (insert id new docs) (rw (version, again) (ground arith)))
