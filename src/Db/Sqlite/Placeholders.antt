-- ===== src/Db/Sqlite/Placeholders.antt =====
-- As many placeholders as parameters: db/sqlite/compile.go.
use howl_go.Prelude.{
  ◌≡◌, refl, ◌∙◌, some, List, [], ◌∷◌, Bytes, codes, Dict, lookup, length, if◌then◌else◌, arith,
}
use howl_go.Db.Value.{Json, null, bool, num, str, arr, obj, Items, nil, cons, Fields, end, field}
use howl_go.Db.Sql.{not_a_filter, not_a_list, ok, Action, refuse, all_filters, join_with, in_parens}
use howl_go.Db.Sql.Marks.{
  Spends, AllSpend, no_more, and_more, paid-eq, give-Spends, refuse-Spends, if-Spends, >>=-Spends,
  framed, sort_keys-AllSpend, occurrences, run_all-Spends,
}
use howl_go.Db.Sqlite.{Param, Column, compile_field, compile_where}
use howl_go.Db.Sql.Compile.{
  branches_text, is_connective, conjoin, plain_key, compile_entries, compile_entry,
  compile_branches, compile_branch, compile,
}
use howl_go.Db.Sqlite.Texts.{marks, all_marks, marks-join_with, marks-in_parens}
use howl_go.Db.Sqlite.Binding.{plain_key-Spends}

module _ {F : Type 0} (marshal : Json F → Bytes) (promoted : Dict Column)
    (named : (path : Bytes) (column : Column)
      → lookup path promoted ≡ some column
      → marks column.name ≡ 0) where
  conjoin-Spends :
      (ms : Dict (Action (Param F) Bytes))
      → AllSpend marks ms
      → Spends 0 (conjoin (compile_field marshal promoted) (codes "1") (codes "0") ms) marks
  unfolding conjoin
  conjoin-Spends [] h = give-Spends (codes "1") refl
  conjoin-Spends ((k, m) ∷ ms) h =
      >>=-Spends (run_all-Spends b'?' (sort_keys-AllSpend h))
        (λ parts. give-Spends _ (marks-join_with (codes " AND ") parts refl))

  lone-Spends :
      (key : Bytes) (v : Json F)
      → Spends 0
          (if is_connective key
            then refuse not_a_list
            else plain_key (compile_field marshal promoted) (codes "1") (codes "0") key v)
          marks
  lone-Spends key v =
      if-Spends _ (refuse-Spends not_a_list) (plain_key-Spends marshal promoted named key v)

  marks-branches_text :
      (separator empty : Bytes) (texts : List Bytes)
      → marks separator ≡ 0
      → marks empty ≡ 0
      → marks (branches_text separator empty texts) ≡ all_marks texts
  marks-branches_text separator empty [] h k = k
  marks-branches_text separator empty (w ∷ ws) h k =
      marks-in_parens (join_with separator (w ∷ ws)) ∙ marks-join_with separator (w ∷ ws) h

  mutual
    unfolding compile_entries compile_entry compile_branches compile_branch

    compile_entries-AllSpend :
        (m : Fields F)
        → AllSpend marks
            (compile_entries (compile_field marshal promoted) (codes "1") (codes "0") m)
    compile_entries-AllSpend end = no_more
    compile_entries-AllSpend (field k v m) =
        and_more k (compile_entry-Spends k v) (compile_entries-AllSpend m)

    compile_entry-Spends :
        (k : Bytes) (v : Json F)
        → Spends 0
            (compile_entry (compile_field marshal promoted) (codes "1") (codes "0") k v)
            marks
    compile_entry-Spends k null = lone-Spends k null
    compile_entry-Spends k (bool b) = lone-Spends k (bool b)
    compile_entry-Spends k (num n) = lone-Spends k (num n)
    compile_entry-Spends k (str s) = lone-Spends k (str s)
    compile_entry-Spends k (obj m) = lone-Spends k (obj m)
    compile_entry-Spends k (arr xs) =
        if-Spends (is_connective k)
          (if-Spends (all_filters xs)
            (>>=-Spends (compile_branches-Spends xs) (λ texts. give-Spends _ (
              ground (
                arith,
                marks-branches_text (codes " OR ") (codes "0") texts refl refl,
                marks-branches_text (codes " AND ") (codes "1") texts refl refl,
              ))))
            (refuse-Spends not_a_filter))
          (plain_key-Spends marshal promoted named k (arr xs))

    compile_branches-Spends :
        (xs : Items F)
        → Spends 0
            (compile_branches (compile_field marshal promoted) (codes "1") (codes "0") xs)
            all_marks
    compile_branches-Spends nil = give-Spends [] refl
    compile_branches-Spends (cons b bs) = >>=-Spends (compile_branch-Spends b) (λ w.
        >>=-Spends (framed (marks w) (compile_branches-Spends bs))
          (λ ws. give-Spends (in_parens w ∷ ws) (omega (arith, marks-in_parens w))))

    compile_branch-Spends :
        (v : Json F)
        → Spends 0 (compile_branch (compile_field marshal promoted) (codes "1") (codes "0") v) marks
    compile_branch-Spends null = refuse-Spends not_a_filter
    compile_branch-Spends (bool b) = refuse-Spends not_a_filter
    compile_branch-Spends (num n) = refuse-Spends not_a_filter
    compile_branch-Spends (str s) = refuse-Spends not_a_filter
    compile_branch-Spends (arr xs) = refuse-Spends not_a_filter
    compile_branch-Spends (obj m) = conjoin-Spends _ (compile_entries-AllSpend m)

  -- A filter that compiles gives a SQL text with exactly as many question marks as parameters, as
  -- long as no promoted column has a question mark in its name.
  pub compile_where-marks :
      (filter : Fields F) (sql : Bytes) (params : List (Param F))
      → compile_where marshal promoted filter ≡ ok (sql, params)
      → occurrences b'?' sql ≡ length params
  unfolding compile_where compile
  compile_where-marks filter sql params h =
      omega (arith, paid-eq (conjoin-Spends _ (compile_entries-AllSpend filter)) h)
