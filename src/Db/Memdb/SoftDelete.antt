-- ===== src/Db/Memdb/SoftDelete.antt =====
-- The soft-delete condition of db/filter.go against the documents of db/memdb.
use howl_go.Prelude.{
  ◌≡◌, refl, ap, ◌∙◌, not, ◌&&◌, Option, none, some, Bytes, str_eq, has_prefix, split, arith, [],
  ◌∷◌,
}
use howl_go.Db.Value.{Json, null, obj, Fields, end, field, Numbers, get, put, get_path}
use howl_go.Db.Filter.{
  meta_path, deleted_at, deleted_at_path, active, operators, matches, entry_matches, field_matches,
  equal,
}
use howl_go.Db.Filter.Logic.{matches-field, matches-end}
use howl_go.Db.Memdb.{deleted, set_null, meta_of}

module _ {F : Type 0} (N : Numbers F) where
  -- A condition under a new key is one conjunct more.
  matches-put :
      (doc m : Fields F) (k : Bytes) (v : Json F)
      → get k m ≡ none
      → matches N doc (put k v m) ≡ (matches N doc m && entry_matches N doc k v)
  unfolding get put
  matches-put doc end k v h = ground (arith, matches-field N doc k v end, matches-end N doc)
  matches-put doc (field j w m) k v h =
      ground (
        arith,
        matches-put doc m k v,
        matches-field N doc j w m,
        matches-field N doc j w (put k v m),
      )

  equal-null :
      (o : Option (Json F))
      → equal N (elim o [ none ↦ none | some v ↦ some v ]) null ≡ not (not (set_null o))
  unfolding equal
  equal-null none = refl
  equal-null (some v) = ground arith

  equal-meta :
      (o : Option (Json F))
      → equal N (elim o [ none ↦ none | some v ↦ get_path (deleted_at ∷ []) v ]) null
        ≡ not (not (set_null (get deleted_at (meta_of o))))
  unfolding equal get_path get
  equal-meta none = refl
  equal-meta (some (obj m)) = equal-null (get deleted_at m)
  equal-meta (some _) = refl

  -- The condition that active adds holds exactly of a document that is not deleted.
  entry_matches-deleted :
      (doc : Fields F) → entry_matches N doc deleted_at_path null ≡ not (deleted doc)
  unfolding entry_matches field_matches operators str_eq has_prefix split get_path deleted
  entry_matches-deleted doc = equal-meta (get meta_path doc)

  -- A read of active documents is the caller's filter on those that are not deleted, unless the
  -- caller constrains the deletion time.
  pub matches-active :
      (doc filter : Fields F)
      → get deleted_at_path filter ≡ none
      → matches N doc (active filter) ≡ (matches N doc filter && not (deleted doc))
  matches-active doc filter h =
      unfold active in
      rw h (
        matches-put doc filter deleted_at_path null h
        ∙ ap (λ b. matches N doc filter && b) (entry_matches-deleted doc))
