-- ===== src/Db/Service/Sets.antt =====
-- PatchWhere, DeleteWhere and bulk of db/service.go.
use howl_go.Prelude.{
  ℕ, ◌+◌, Bool, true, false, ◌||◌, none, some, List, [], ◌∷◌, str_eq, Dict, insert, is_nil,
  if◌then◌else◌,
}
use howl_go.Db.Value.{Json, num, str, Fields, end, Numbers}
use howl_go.Db.Filter.{id_path, version_path, active}
use howl_go.Db.Memdb.{UpdateOptions}
use howl_go.Db.Service.{
  not_found, refused, Result, ok, failed, updated_at_path, updated_by_path, Opts, DocumentType,
  Backend, Caching, World, after, decoded, called, invalidate, unpaged, quiet, bumping,
}
use howl_go.Db.Service.Single.{delete_paths}

module _ {F S T : Type 0} (N : Numbers F) (D : DocumentType F T) (B : Backend F S)
    (C : Caching S) where
  -- what a row's update leads to: a row that is gone meanwhile is not counted
  abbrev pub walked :
      (ℕ → World S → Result ℕ × World S) → ℕ → Result (Fields F) × World S → Result ℕ × World S
  walked next n (ok stored, w) = next (n + 1) w
  walked next n (failed not_found, w) = next n w
  walked next n (failed e, w) = (failed e, w)

  -- the loop of bulk over the rows, with the number written; an error drops it here
  unfoldable pub walk :
      List (Fields F) → Dict (Json F) → UpdateOptions → ℕ → World S → Result ℕ × World S
  walk [] paths options n w = (ok n, w)
  walk (raw ∷ rows) paths options n w = decoded (D.decode raw) w (λ doc.
      walked (walk rows paths options) n
        (called w (B.update_paths (D.envelope doc).doc_id paths options w.store)))

  unfoldable pub bulk : Fields F → Dict (Json F) → UpdateOptions → World S → Result ℕ × World S
  unfolding walk
  bulk filter paths options w = elim (B.update_paths_where) [
    | some write ↦ called w (write filter paths options w.store)
    | none ↦
        after (called w (B.find_many filter unpaged w.store))
          (λ rows w'. walk rows paths options 0 w')
  ]

  -- the paths of PatchWhere, before the stamp: neither the id nor the version
  unfoldable pub kept_paths : Dict (Json F) → Dict (Json F)
  unfolding str_eq
  kept_paths [] = []
  kept_paths ((path, value) ∷ values) =
      let rest = kept_paths values in
      if str_eq path id_path || str_eq path version_path then rest else (path, value) ∷ rest

  unfoldable pub where_paths : Dict (Json F) → ℕ → Opts → Dict (Json F)
  unfolding kept_paths insert
  where_paths values now o =
      insert updated_by_path (str o.actor)
        (insert updated_at_path (num (D.stamp now)) (kept_paths values))

  abbrev pub changed_rows : Opts → ℕ → World S → Result ℕ × World S
  changed_rows o n w = (ok n, invalidate C o.session w)

  abbrev is_end : Fields F → Bool
  is_end end = true
  is_end _ = false

  unfoldable pub patch_where : Fields F → Dict (Json F) → Opts → ℕ → World S → Result ℕ × World S
  unfolding where_paths bulk invalidate active
  patch_where filter values o now w =
      if is_end filter
      then (failed refused, w)
      else if is_nil values
      then (ok 0, w)
      else after (bulk (active filter) (where_paths values now o) bumping w) (changed_rows o)

  unfoldable pub delete_where : Fields F → Opts → ℕ → World S → Result ℕ × World S
  unfolding bulk invalidate active
  delete_where filter o now w =
      if is_end filter
      then (failed refused, w)
      else after (bulk (active filter) (delete_paths N D B C now o) quiet w) (changed_rows o)
