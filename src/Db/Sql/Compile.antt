-- ===== src/Db/Sql/Compile.antt =====
-- The part of db/sqlite/compile.go and db/pg/compile.go that is the same: the operators of a field, and
-- the connectives, over what compiles one field and the texts of an empty filter.
use howl_go.Prelude.{Bool, ◌||◌, List, [], ◌∷◌, Bytes, codes, str_eq, Dict, is_nil, if◌then◌else◌}
use howl_go.Db.Value.{Json, arr, obj, Items, nil, cons, Fields, end, field}
use howl_go.Db.Filter.{op_or, op_and, is_operator}
use howl_go.Db.Sql.{
  unsupported_key, not_a_list, not_a_filter, Action, ◌>>=◌, give, refuse, join_with, in_parens,
  sort_keys, run_all, all_filters,
}

abbrev pub conjunction : List Bytes → Bytes
conjunction (part ∷ []) = part
conjunction parts = in_parens (join_with (codes " AND ") parts)

abbrev pub branches_text : Bytes → Bytes → List Bytes → Bytes
branches_text separator empty texts =
    if is_nil texts then empty else in_parens (join_with separator texts)

abbrev pub is_connective : Bytes → Bool
is_connective key = str_eq key op_and || str_eq key op_or

module _ {F P : Type 0} (operator : Bytes → Json F → Action P Bytes) where
  -- the entries of an operator object, each as the action that compiles it
  unfoldable pub operator_entries : Fields F → Dict (Action P Bytes)
  operator_entries end = []
  operator_entries (field op operand m) = (op, operator op operand) ∷ operator_entries m

  unfoldable pub compile_operators : Fields F → Action P Bytes
  compile_operators ops = do
    parts ← run_all (sort_keys (operator_entries ops))
    give (conjunction parts)

module _ {F P : Type 0} (compile_field : Bytes → Json F → Action P Bytes)
    (yes_text no_text : Bytes) where
  -- the parts of a filter under AND; an empty filter is true
  unfoldable pub conjoin : Dict (Action P Bytes) → Action P Bytes
  conjoin entries =
      if is_nil entries
      then give yes_text
      else (do parts ← run_all (sort_keys entries); give (join_with (codes " AND ") parts))

  abbrev pub connective : Bytes → Action P (List Bytes) → Action P Bytes
  connective key branches = do
    texts ← branches
    give (
        if str_eq key op_or
        then branches_text (codes " OR ") no_text texts
        else branches_text (codes " AND ") yes_text texts)

  abbrev pub plain_key : Bytes → Json F → Action P Bytes
  plain_key key v = if is_operator key then refuse unsupported_key else compile_field key v

  unfoldable mutual
    -- compile, before the sort: the entries of a filter, each as the action that compiles it
    pub compile_entries : Fields F → Dict (Action P Bytes)
    compile_entries end = []
    compile_entries (field key v m) = (key, compile_entry key v) ∷ compile_entries m

    pub compile_entry : Bytes → Json F → Action P Bytes
    compile_entry key (arr xs) =
        let branches = compile_branches xs in
        if is_connective key
        then (if all_filters xs then connective key branches else refuse not_a_filter)
        else plain_key key (arr xs)
    compile_entry key v = if is_connective key then refuse not_a_list else plain_key key v

    pub compile_branches : Items F → Action P (List Bytes)
    compile_branches nil = give []
    compile_branches (cons b bs) = do
      text ← compile_branch b
      texts ← compile_branches bs
      give (in_parens text ∷ texts)

    pub compile_branch : Json F → Action P Bytes
    compile_branch (obj m) = conjoin (compile_entries m)
    compile_branch _ = refuse not_a_filter

  unfoldable pub compile : Fields F → Action P Bytes
  compile filter = conjoin (compile_entries filter)
