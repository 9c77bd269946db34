-- ===== src/Db/Diff/Projection.antt =====
-- The projection of a document: prune of db/json.go.
use howl_go.Prelude.{
  ◌≡◌, refl, sym, ap, ◌∙◌, ◌≢◌, true, false, Option, none, some, List, [], ◌∷◌, Bytes, split,
  str_eq, str_eq_iff, if◌then◌else◌, arith, Bool-cases, inl, inr,
}
use howl_go.Db.Value.{Json, bool, obj, Fields, end, field, get, put, get-put}
use howl_go.Db.Filter.{id_path, version_path, meta_path, path_of}
use howl_go.Db.Diff.{keep_below, keep_path, keep_tree, prune_value, prune_fields, prune}

module _ {F : Type 0} where
  abbrev kept_value : Option (Json F) → Option (Json F) → Option (Json F)
  kept_value none found = none
  kept_value (some want) none = none
  kept_value (some want) (some value) = some (prune_value want value)

  kept_value-none : (o : Option (Json F)) → kept_value o none ≡ none
  kept_value-none none = refl
  kept_value-none (some want) = refl

  prune_here :
      (k key : Bytes) (want : Json F) (keep fields : Fields F) (found : Option (Json F))
      → get key fields ≡ found
      → get k (prune_fields keep fields) ≡ kept_value (get k keep) (get k fields)
      → get k (elim found [
        | none ↦ prune_fields keep fields
        | some value ↦ field key (prune_value want value) (prune_fields keep fields)
      ])
        ≡ kept_value (if str_eq key k then some want else get k keep) (get k fields)
  unfolding get
  prune_here k key want keep fields none e rest = elim (Bool-cases (str_eq key k)) [
    | inl here ↦
        let same : key ≡ k = (str_eq_iff key k).0 here in
        let missing : get k fields ≡ none = ap (λ j. get j fields) (sym same) ∙ e in
        rw here (rest ∙ rw missing (kept_value-none (get k keep)))
    | inr other ↦ rw other rest
  ]
  prune_here k key want keep fields (some value) e rest = elim (Bool-cases (str_eq key k)) [
    | inl here ↦
        let same : key ≡ k = (str_eq_iff key k).0 here in
        let found : get k fields ≡ some value = ap (λ j. get j fields) (sym same) ∙ e in
        rw (here, found) refl
    | inr other ↦ rw other rest
  ]

  -- What the projection holds under a key is what the tree keeps of the document's value there.
  get-prune_fields :
      (k : Bytes) (keep fields : Fields F)
      → get k (prune_fields keep fields) ≡ kept_value (get k keep) (get k fields)
  unfolding get prune_fields
  get-prune_fields k end fields = refl
  get-prune_fields k (field key want keep) fields =
      prune_here k key want keep fields (get key fields) refl (get-prune_fields k keep fields)

  -- The tree holds a leaf at the key.
  abbrev Whole : Bytes → Fields F → Type 0
  Whole k tree = get k tree ≡ some (bool true)

  put-Whole :
      (k seg : Bytes) (v : Json F) (o : Option (Json F)) (tree : Fields F)
      → get seg tree ≡ o
      → o ≢ some (bool true)
      → Whole k tree
      → Whole k (put seg v tree)
  put-Whole k seg v o tree e ne h = elim (Bool-cases (str_eq seg k)) [
    | inl here ↦ absurd (ne (sym e ∙ ap (λ j. get j tree) ((str_eq_iff seg k).0 here) ∙ h))
    | inr other ↦ get-put seg k v tree ∙ rw other h
  ]

  keep_below-Whole :
      (k seg : Bytes) (o : Option (Json F)) (below : Fields F → Fields F) (tree : Fields F)
      → get seg tree ≡ o
      → Whole k tree
      → Whole k (keep_below seg o below tree)
  keep_below-Whole k seg (some (bool true)) below tree e h = h
  keep_below-Whole k seg (some (obj c)) below tree e h =
      put-Whole k seg _ (some (obj c)) tree e (λ d. cc) h
  keep_below-Whole k seg (some (bool false)) below tree e h =
      put-Whole k seg _ (some (bool false)) tree e (λ d. cc) h
  keep_below-Whole k seg o below tree e h = put-Whole k seg _ o tree e (λ d. cc) h

  keep_path-Whole :
      (k : Bytes) (path : List Bytes) (tree : Fields F)
      → Whole k tree
      → Whole k (keep_path path tree)
  unfolding keep_path
  keep_path-Whole k [] tree h = h
  keep_path-Whole k (seg ∷ []) tree h =
      ground (arith, get-put seg k (bool true) tree, str_eq_iff seg k)
  keep_path-Whole k (seg ∷ next ∷ segs) tree h =
      keep_below-Whole k seg (get seg tree) (keep_path (next ∷ segs)) tree refl h

  keep_tree-Whole :
      (k : Bytes) (paths : List Bytes) (tree : Fields F)
      → Whole k tree
      → Whole k (keep_tree paths tree)
  unfolding keep_tree
  keep_tree-Whole k [] tree h = h
  keep_tree-Whole k (path ∷ paths) tree h =
      keep_tree-Whole k paths _ (keep_path-Whole k (path_of path) tree h)

  kept_whole : (o : Option (Json F)) → kept_value (some (bool true)) o ≡ o
  unfolding prune_value
  kept_whole none = refl
  kept_whole (some v) = refl

  get-prune :
      (k : Bytes) (doc : Fields F) (keep : List Bytes)
      → Whole k (keep_tree (id_path ∷ version_path ∷ meta_path ∷ []) end)
      → get k (prune doc keep) ≡ get k doc
  unfolding prune keep_tree
  get-prune k doc keep h =
      get-prune_fields k (keep_tree (id_path ∷ version_path ∷ meta_path ∷ keep) end) doc
      ∙ rw (keep_tree-Whole k keep _ h) (kept_whole (get k doc))

  -- Whatever paths a projection keeps, the id, the version and the meta sub-document come out as the
  -- document has them.
  pub prune-envelope :
      (doc : Fields F) (keep : List Bytes)
      → (get id_path (prune doc keep) ≡ get id_path doc)
        × (get version_path (prune doc keep) ≡ get version_path doc)
        × (get meta_path (prune doc keep) ≡ get meta_path doc)
  unfolding keep_tree keep_path get put split str_eq
  prune-envelope doc keep = (
    get-prune id_path doc keep refl,
    get-prune version_path doc keep refl,
    get-prune meta_path doc keep refl,
  )
