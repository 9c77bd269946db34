-- ===== src/Db/Sqlite/Tests.antt =====
-- Filters of db/sqlite/compile_test.go with their SQL, and the theorems at one of them.
use howl_go.Prelude.{
  ℕ, ◌+◌, ◌≡◌, refl, true, some, List, [], ◌∷◌, Bytes, codes, str_eq, join, split, has_prefix, Dict,
  lookup, length, arith,
}
use howl_go.Db.Value.{
  Json, null, bool, num, str, arr, obj, nil, cons, Fields, end, field, str_compare,
}
use howl_go.Db.Filter.{op_and, op_gte, op_lt, op_nin, operators, is_null}
use howl_go.Db.Sql.{
  ok, refused, unsupported_key, is_identifier, insert_key, sort_keys, run_all, join_with,
  all_filters, list_of,
}
use howl_go.Db.Sql.Actions.{Like}
use howl_go.Db.Sql.Marks.{occurrences}
use howl_go.Db.Sqlite.{
  Column, Param, value, int, json_path, push, composite, target, equality, bind_values, membership,
  operator, compile_field, compile_where, nin_text,
}
use howl_go.Db.Sql.Texts.{assert_ident, assert_all, list_text}
use howl_go.Db.Sql.Compile.{
  operator_entries, conjoin, compile_entries, compile_entry, compile_branches, compile_branch,
  compile, compile_operators,
}
use howl_go.Db.Sql.Replace.{replace_fields, is_container}
use howl_go.Db.Sqlite.Injection.{compile_where-replace}
use howl_go.Db.Sqlite.Placeholders.{compile_where-marks}

-- an encoding that shows an object and an array
abbrev shown : Json ℕ → Bytes
shown (obj m) = codes "{}"
shown (arr xs) = codes "[]"
shown _ = codes "0"

abbrev columns : Dict Column
columns = (codes "org_id", record { name = codes "org_id" }) ∷ []

abbrev scored : Fields ℕ
scored =
    field op_and
      (arr (
        cons (obj (field (codes "org_id") (str (codes "acme")) end)) (
          cons
            (obj
              (field (codes "score") (obj (field op_lt (num 20) (field op_gte (num 10) end))) end))
            nil)))
      end

abbrev scored_sql : Bytes
scored_sql = codes "((\"org_id\" = ?) AND ((doc->>'$.score' >= ? AND doc->>'$.score' < ?)))"

abbrev scored_params : List (Param ℕ)
scored_params = value (str (codes "acme")) ∷ value (num 10) ∷ value (num 20) ∷ []

compiled : compile_where shown columns scored ≡ ok (scored_sql, scored_params)
unfolding compile_where compile conjoin compile_entries compile_entry compile_branches
    compile_branch compile_field compile_operators operator_entries operator equality target push
    composite assert_all assert_ident json_path is_identifier insert_key sort_keys run_all join_with
    all_filters operators is_null lookup str_eq str_compare has_prefix split join
compiled = refl

refused_key :
    compile_where shown columns (field (codes "$where") (num 1) end) ≡ refused unsupported_key
unfolding compile_where compile conjoin compile_entries compile_entry sort_keys insert_key run_all
    str_eq has_prefix
refused_key = refl

absent_or :
    compile_where shown columns
      (field (codes "org_id") (obj (field op_nin (arr (cons (bool true) nil)) end)) end)
    ≡ ok (codes "(\"org_id\" IS NULL OR \"org_id\" NOT IN (?))", int 1 ∷ [])
unfolding compile_where compile conjoin compile_entries compile_entry compile_field
    compile_operators operator_entries operator membership bind_values list_of nin_text list_text
    target push composite assert_all assert_ident is_identifier insert_key sort_keys run_all
    join_with operators is_null lookup str_eq str_compare has_prefix split
absent_or = refl

shown_container : (v : Json ℕ) → composite shown columns v ≡ is_container v
unfolding composite
shown_container null = refl
shown_container (bool b) = refl
shown_container (num n) = refl
shown_container (str s) = refl
shown_container (arr xs) = refl
shown_container (obj m) = refl

compile_where-replace_example :
    Like
      (compile_where shown columns (replace_fields (λ s. codes "' OR 1=1 --") (λ n. n + 1) scored))
      (compile_where shown columns scored)
compile_where-replace_example =
    compile_where-replace shown columns (λ s. codes "' OR 1=1 --") (λ n. n + 1) shown_container
      scored

org_column :
    (path : Bytes) (column : Column)
    → lookup path columns ≡ some column
    → occurrences b'?' column.name ≡ 0
unfolding lookup
org_column path column h = ground arith

compile_where-marks_example : occurrences b'?' scored_sql ≡ length scored_params
compile_where-marks_example =
    compile_where-marks shown columns org_column scored scored_sql scored_params compiled
