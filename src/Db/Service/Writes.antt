-- ===== src/Db/Service/Writes.antt =====
-- What the set-wide writes of db/service.go touch, and when its writes retire cached reads.
use howl_go.Prelude.{
  ℕ, ◌≡◌, ap, ◌∙◌, ◌||◌, none, some, [], ◌∷◌, Bytes, str_eq, str_eq_iff, Dict, lookup, insert,
  lookup-insert, if◌then◌else◌, arith,
}
use howl_go.Db.Value.{Json, str, num, Numbers}
use howl_go.Db.Filter.{id_path, version_path}
use howl_go.Db.Service.{Opts, DocumentType, Backend, Caching, updated_at_path, updated_by_path}
use howl_go.Db.Service.Sets.{kept_paths, where_paths}

module _ {F S T : Type 0} (N : Numbers F) (D : DocumentType F T) (B : Backend F S)
    (C : Caching S) where
  lookup-kept_paths :
      (k : Bytes) (values : Dict (Json F))
      → lookup k (kept_paths N D B C values)
        ≡ (if str_eq k id_path || str_eq k version_path then none else lookup k values)
  unfolding lookup kept_paths
  lookup-kept_paths k [] = ground arith
  lookup-kept_paths k ((path, value) ∷ values) = ground (
    arith,
    lookup-kept_paths k values,
    str_eq_iff path k,
    str_eq_iff k id_path,
    str_eq_iff k version_path,
    str_eq_iff path id_path,
    str_eq_iff path version_path,
  )

  -- The paths that PatchWhere writes: the time and the actor of the change, neither the id nor the
  -- version, and what the caller gave for every other path.
  pub lookup-where_paths :
      (values : Dict (Json F)) (now : ℕ) (o : Opts) (k : Bytes)
      → lookup k (where_paths N D B C values now o) ≡ (
          if str_eq updated_by_path k
          then some (str o.actor)
          else if str_eq updated_at_path k
          then some (num (D.stamp now))
          else if str_eq k id_path || str_eq k version_path
          then none
          else lookup k values)
  unfolding where_paths
  lookup-where_paths values now o k =
      let kept : Dict (Json F) = kept_paths N D B C values in
      let timed : Dict (Json F) = insert updated_at_path (num (D.stamp now)) kept in
      lookup-insert updated_by_path k (str o.actor) timed
      ∙ ap (λ rest. if str_eq updated_by_path k then some (str o.actor) else rest)
          (lookup-insert updated_at_path k (num (D.stamp now)) kept
            ∙ ap (λ rest. if str_eq updated_at_path k then some (num (D.stamp now)) else rest)
                (lookup-kept_paths k values))
