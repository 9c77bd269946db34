-- ===== src/Db/Tests.antt =====
-- The theorems on the document store at small documents, whose numbers are natural numbers.
use howl_go.Prelude.{
  ℕ, ◌+◌, ◌≤◌, ◌≡◌, refl, ◌≢◌, Bool, true, false, not, ◌&&◌, none, some, List, [], ◌∷◌, ◌++◌, Bytes,
  codes, arith, ltb, length, Dict, lookup, split, str_eq,
}
use howl_go.Db.Value.{
  Json, num, str, arr, obj, Items, Fields, end, field, Numbers, get, get_path, less,
}
use howl_go.Db.Filter.{
  SortKey, id_path, version_path, meta_path, deleted_at_path, op_eq, op_gt, active, compare,
  operators, field_matches, matches, constraint,
}
use howl_go.Db.Filter.Logic.{field_matches-composite}
use howl_go.Db.Filter.Sorting.{is_less, by_key}
use howl_go.Db.Memdb.{
  ok, not_found, UpdateOptions, Docs, set_path, deleted, apply, update_paths, update_at, find_many,
}
use howl_go.Db.Memdb.Locking.{PathsAvoid, lost_lock}
use howl_go.Db.Memdb.Queries.{Unique, find_many-pages}
use howl_go.Db.Memdb.SoftDelete.{matches-active}
use howl_go.Db.Memdb.Paths.{get_path-set_path}
use howl_go.Db.Diff.{prune}
use howl_go.Db.Diff.Projection.{prune-envelope}

abbrev numbers : Numbers ℕ
numbers = record { lt = ltb; zero_value = 0; plus_one = λ n. n + 1; int64 = λ n. n }

abbrev ada : Fields ℕ
ada =
    field id_path (str (codes "1")) (field version_path (num 3) (field (codes "age") (num 36) end))

abbrev grace : Fields ℕ
grace =
    field id_path (str (codes "2")) (field version_path (num 1) (field (codes "age") (num 85) end))

abbrev people : Docs ℕ
people = (codes "1", ada) ∷ (codes "2", grace) ∷ []

ids_differ : codes "1" ≢ codes "2"
ids_differ e = ground arith

people-Unique : Unique people
people-Unique = ((ids_differ, tt), (tt, tt))

abbrev older : Fields ℕ
older = constraint op_gt (codes "age") (num 40)

abbrev aged : Fields ℕ
aged = constraint op_eq (codes "age") (num 36)

abbrev by_age : List SortKey
by_age = record { sort_field = codes "age"; desc = false } ∷ []

two_below_three : compare numbers (num 2) (num 3) ≡ some less
unfolding compare
two_below_three = refl

field_matches-composite_example :
    ((m : Fields ℕ)
      → operators (obj m) ≡ none
      → field_matches numbers ada (codes "tags") (obj m) ≡ false)
    × ((xs : Items ℕ) → field_matches numbers ada (codes "tags") (arr xs) ≡ false)
field_matches-composite_example = field_matches-composite numbers ada (codes "tags")

ltb_asym : (x y : ℕ) → numbers.lt x y ≡ true → numbers.lt y x ≡ false
ltb_asym x y h = ground arith

ada_younger : is_less numbers ada grace by_age ≡ true
unfolding is_less by_key compare get_path get split str_eq
ada_younger = refl

abbrev under_three : UpdateOptions
under_three = record { expected_version = 3; unset = []; no_bump = false }

abbrev birthday : List (Bytes × Json ℕ)
birthday = (codes "age", num 37) ∷ []

first_wins :
    (update_paths numbers (codes "1") birthday under_three people).0
    ≡ ok (apply numbers ada birthday under_three)
unfolding update_paths update_at lookup get str_eq
first_wins = refl

steps_on : (x : ℕ) → x ≡ 3 → x + 1 ≢ 3
steps_on x e h = omega arith

birthday_avoids : PathsAvoid version_path birthday
unfolding split
birthday_avoids = (λ e. ground arith, tt)

lost_lock_example :
    update_paths numbers
      (codes "1")
      birthday
      under_three
      (update_paths numbers (codes "1") birthday under_three people).1
    ≡ (not_found, (update_paths numbers (codes "1") birthday under_three people).1)
lost_lock_example =
    lost_lock numbers (codes "1") birthday birthday under_three under_three people
      (apply numbers ada birthday under_three) first_wins (λ e. omega arith) refl refl
      birthday_avoids tt steps_on

find_many-pages_example :
    (find_many numbers end (record { sort = by_age; limit = 1; skip = 0 }) people
        ++ find_many numbers end (record { sort = by_age; limit = 0; skip = 1 }) people
      ≡ find_many numbers end (record { sort = by_age; limit = 0; skip = 0 }) people)
    × (length (find_many numbers end (record { sort = by_age; limit = 1; skip = 0 }) people) ≤ 1)
find_many-pages_example = find_many-pages numbers end by_age 0 1 people (omega arith)

unconstrained : get deleted_at_path older ≡ none
unfolding get str_eq
unconstrained = refl

matches-active_example :
    matches numbers ada (active older) ≡ (matches numbers ada older && not (deleted ada))
matches-active_example = matches-active numbers ada older unconstrained

get_path-set_path_example :
    get_path (codes "a" ∷ codes "b" ∷ []) (obj (set_path (codes "a" ∷ codes "b" ∷ []) (num 1) ada))
    ≡ some (num 1)
get_path-set_path_example = get_path-set_path (codes "a") (codes "b" ∷ []) (num 1) ada

abbrev every_name : Bytes → Bool
every_name name = true

abbrev aged_update : Dict (Json ℕ)
aged_update = (codes "age", num 85) ∷ []

prune-envelope_example :
    (get id_path (prune ada (codes "age" ∷ [])) ≡ get id_path ada)
    × (get version_path (prune ada (codes "age" ∷ [])) ≡ get version_path ada)
    × (get meta_path (prune ada (codes "age" ∷ [])) ≡ get meta_path ada)
prune-envelope_example = prune-envelope ada (codes "age" ∷ [])
