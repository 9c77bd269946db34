-- ===== src/Db/Pg/Tests.antt =====
-- Filters of db/pg/compile_test.go with their SQL, and the theorem at one of them.
use howl_go.Prelude.{
  ℕ, ◌+◌, ◌≡◌, refl, [], ◌∷◌, Bytes, codes, str_eq, split, has_prefix, Dict, lookup,
}
use howl_go.Db.Value.{Json, num, str, obj, arr, null, nil, cons, Fields, end, field, str_compare}
use howl_go.Db.Filter.{op_gte, op_lt, op_in, operators, is_null}
use howl_go.Db.Sql.{ok, is_identifier, insert_key, sort_keys, run_all, join_with, list_of}
use howl_go.Db.Sql.Actions.{Like}
use howl_go.Db.Sql.Compile.{
  operator_entries, compile_operators, conjoin, compile_entries, compile_entry, compile,
}
use howl_go.Db.Sql.Replace.{replace_fields}
use howl_go.Db.Sql.Texts.{assert_ident, assert_all, join_parts, list_text}
use howl_go.Db.Pg.{
  Column, jsonb_steps, jsonb_path, null_match, in_text, push, target, bind_value, equality,
  bind_values, membership, operator, compile_field, compile_where,
}
use howl_go.Db.Pg.Injection.{compile_pg-replace}

abbrev shown : Json ℕ → Bytes
shown _ = codes "7"

-- the digits of a number below ten
abbrev digit : ℕ → Bytes
digit n = (n + 48) ∷ []

abbrev columns : Dict Column
columns = (codes "org_id", record { name = codes "org_id"; segments = codes "org_id" ∷ [] }) ∷ []

abbrev scored : Fields ℕ
scored =
    field (codes "org_id") (str (codes "acme"))
      (field (codes "score") (obj (field op_lt (num 20) (field op_gte (num 10) end))) end)

compiled :
    compile_where shown digit columns 2 scored
    ≡ ok (
      codes "\"org_id\" = $2 AND (doc->'score' >= $3::jsonb AND doc->'score' < $4::jsonb)",
      str (codes "acme") ∷ str (codes "7") ∷ str (codes "7") ∷ [],
    )
unfolding compile_where compile conjoin compile_entries compile_entry compile_field
    compile_operators operator_entries operator equality bind_value target push assert_all
    assert_ident jsonb_path jsonb_steps is_identifier insert_key sort_keys run_all join_with
    operators is_null lookup str_eq str_compare has_prefix split
compiled = refl

null_or_listed :
    compile_where shown digit columns 1
      (field (codes "org_id") (obj (field op_in (arr (cons (num 1) (cons null nil))) end)) end)
    ≡ ok (codes "(\"org_id\" IN ($1) OR \"org_id\" IS NULL)", num 1 ∷ [])
unfolding compile_where compile conjoin compile_entries compile_entry compile_field
    compile_operators operator_entries operator membership bind_values bind_value list_of in_text
    join_parts list_text null_match target push assert_all assert_ident is_identifier insert_key
    sort_keys run_all join_with operators is_null lookup str_eq str_compare has_prefix split
null_or_listed = refl

compile_pg-replace_example :
    Like
      (compile_where shown digit columns 2
        (replace_fields (λ s. codes "' OR 1=1 --") (λ n. n + 1) scored))
      (compile_where shown digit columns 2 scored)
compile_pg-replace_example =
    compile_pg-replace shown digit columns 2 (λ s. codes "' OR 1=1 --") (λ n. n + 1) scored
