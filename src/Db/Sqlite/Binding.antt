-- ===== src/Db/Sqlite/Binding.antt =====
-- As many placeholders as parameters in one field of a filter: db/sqlite/compile.go.
use howl_go.Prelude.{
  ℕ, ◌+◌, ◌≡◌, refl, ◌∙◌, ◌++◌, Bool, true, false, ◌||◌, Option, none, some, List, [], ◌∷◌, Bytes,
  codes, str_eq, Dict, lookup, if◌then◌else◌, arith, Option-cases, inl, inr,
}
use howl_go.Db.Value.{Json, str, Items, nil, cons, Fields, end, field}
use howl_go.Db.Filter.{
  op_eq, op_ne, op_in, op_nin, op_gt, op_gte, op_lt, op_lte, op_exists, is_operator, operators,
  is_null, path_of,
}
use howl_go.Db.Sql.{
  unsupported_operator, not_a_scalar, unsupported_key, ok, Action, give, list_of, is_true,
  join_with,
}
use howl_go.Db.Sql.Marks.{
  Spends, paid, length-snoc, AllSpend, no_more, and_more, give-Spends, refuse-Spends, if-Spends,
  >>=-Spends, lift-Spends, framed, sort_keys-AllSpend, total-append, run_all-Spends,
}
use howl_go.Db.Sqlite.{
  Param, Column, Target, column_or_document, push, as_param, composite, json_path, equality,
  compared, json_text, bind_values, membership, operator, bound_to, on_literal, on_target, target,
  compile_field, in_text, nin_text, exists_text,
}
use howl_go.Db.Sql.Texts.{comparison}
use howl_go.Db.Sql.Compile.{conjunction, operator_entries, compile_operators, plain_key}
use howl_go.Db.Sqlite.Texts.{
  marks, all_marks, marks-append, marks-json_path, marks-join_with, marks-in_parens, marks-in_text,
  marks-nin_text, marks-compared, marks-json_text, marks-comparison,
}

module _ {F : Type 0} where
  push-Spends : (v : Json F) → Spends 0 (push v) marks
  unfolding push
  push-Spends v = record {
    spends =
        λ ps. paid (codes "?") (ps ++ as_param v ∷ []) (omega (arith, length-snoc ps (as_param v)));
  }

  bound_to-Spends :
      (v : Json F) (f : Bytes → Bytes)
      → ((bound : Bytes) → marks (f bound) ≡ marks bound)
      → Spends 0 (bound_to v f) marks
  bound_to-Spends v f h = >>=-Spends (push-Spends v) (λ bound. give-Spends (f bound) (h bound))

module _ {F : Type 0} (marshal : Json F → Bytes) (promoted : Dict Column)
    (named : (path : Bytes) (column : Column)
      → lookup path promoted ≡ some column
      → marks column.name ≡ 0) where
  column_or_document-marks :
      (path : Bytes) (segments : List Bytes) (t : Target)
      → column_or_document marshal promoted (lookup path promoted) segments ≡ ok t
      → marks t.expr ≡ 0
  column_or_document-marks path segments t h = elim (Option-cases (lookup path promoted)) [
    | inl absent ↦ grind (arith, absent, h, marks-json_path)
    | inr (column, found) ↦
        ground (arith, found, h, named path column, marks-append column.name (b'"' ∷ []))
  ]

  target-marks :
      (path : Bytes) (t : Target) → target marshal promoted path ≡ ok t → marks t.expr ≡ 0
  unfolding target
  target-marks path t h = ground (arith, column_or_document-marks path (path_of path) t)

  on_literal-Spends :
      (t : Target) (next : Bytes → Action (Param F) Bytes)
      → ((literal : Bytes) → marks literal ≡ 0 → Spends 0 (next literal) marks)
      → Spends 0 (on_literal marshal promoted t next) marks
  on_literal-Spends t next h =
      lift-Spends (json_path t.segments)
        (λ literal e. h literal (marks-json_path t.segments literal e))

  equality-Spends :
      (t : Target) (v : Json F) → marks t.expr ≡ 0 → Spends 0 (equality marshal promoted t v) marks
  unfolding equality
  equality-Spends t v e =
      if-Spends (is_null v)
        (give-Spends _ (omega (arith, e, marks-append t.expr (codes " IS NULL"))))
        (if-Spends (composite marshal promoted v)
          (on_literal-Spends t _ (λ literal z.
            bound_to-Spends (str (marshal v)) (json_text literal)
              (λ bound. marks-json_text literal bound z)))
          (bound_to-Spends v (compared (codes " = ") t)
            (λ bound. marks-compared (codes " = ") t bound e refl)))

  bind_values-Spends :
      (vs : Items F) (bound : List Bytes) (has_null : Bool)
      → Spends
          (all_marks bound)
          (bind_values marshal promoted vs bound has_null)
          (λ found. all_marks found.0)
  unfolding bind_values
  bind_values-Spends nil bound has_null = give-Spends (bound, has_null) refl
  bind_values-Spends (cons v vs) bound has_null =
      if-Spends (is_null v) (bind_values-Spends vs bound true) (
        if-Spends (composite marshal promoted v) (refuse-Spends not_a_scalar) (
          >>=-Spends (framed (all_marks bound) (push-Spends v)) (λ one.
            at_hand (bound ++ one ∷ []) has_null (all_marks bound + marks one)
              (omega (arith, total-append b'?' bound (one ∷ [])))
              (bind_values-Spends vs (bound ++ one ∷ []) has_null))))
    where
      at_hand :
          (found : List Bytes) (has_null : Bool) (n : ℕ)
          → all_marks found ≡ n
          → Spends
              (all_marks found)
              (bind_values marshal promoted vs found has_null)
              (λ found. all_marks found.0)
          → Spends n (bind_values marshal promoted vs found has_null) (λ found. all_marks found.0)
      at_hand found has_null n e h = rw e at h

  membership-Spends :
      (t : Target) (op : Bytes) (v : Json F)
      → marks t.expr ≡ 0
      → Spends 0 (membership marshal promoted t op v) marks
  unfolding membership
  membership-Spends t op v e =
      lift-Spends (list_of v)
        (λ values listed. >>=-Spends (bind_values-Spends values [] false) (λ found. given found))
    where
      given :
          (found : List Bytes × Bool)
          → Spends
              (all_marks found.0)
              (give {P = Param F} (
                if str_eq op op_in
                then in_text t.expr found.0 found.1
                else nin_text t.expr found.0 found.1))
              marks
      given (bound, has_null) = give-Spends _ (
          ground
            (arith, marks-in_text t.expr bound has_null e, marks-nin_text t.expr bound has_null e))

  operator-Spends :
      (t : Target) (op : Bytes) (v : Json F)
      → marks t.expr ≡ 0
      → Spends 0 (operator marshal promoted t op v) marks
  unfolding operator exists_text
  operator-Spends t op v e = if-Spends (str_eq op op_eq) (equality-Spends t v e) (
      if-Spends (str_eq op op_ne)
        (if-Spends (is_null v)
          (give-Spends _ (omega (arith, e, marks-append t.expr (codes " IS NOT NULL"))))
          (bound_to-Spends v (compared (codes " IS NOT ") t)
            (λ bound. marks-compared (codes " IS NOT ") t bound e refl)))
        (if-Spends (str_eq op op_in || str_eq op op_nin) (membership-Spends t op v e) (
          if-Spends (str_eq op op_gt || str_eq op op_gte || str_eq op op_lt || str_eq op op_lte)
            (bound_to-Spends v (compared (b' ' ∷ (comparison op ++ codes " ")) t) (λ bound.
              marks-compared (b' ' ∷ (comparison op ++ codes " ")) t bound e (marks-comparison op)))
            (if-Spends (str_eq op op_exists)
              (on_literal-Spends t _ (λ literal z. give-Spends _ (existing (is_true v) literal z)))
              (refuse-Spends unsupported_operator)))))
    where
      existing :
          (want : Bool) (literal : Bytes) → marks literal ≡ 0 → marks (exists_text want literal) ≡ 0
      existing true literal z = omega (arith, z, marks-append literal (codes ") IS NOT NULL"))
      existing false literal z = omega (arith, z, marks-append literal (codes ") IS NULL"))

  operator_entries-AllSpend :
      (t : Target) (m : Fields F)
      → marks t.expr ≡ 0
      → AllSpend marks (operator_entries (operator marshal promoted t) m)
  unfolding operator_entries
  operator_entries-AllSpend t end e = no_more
  operator_entries-AllSpend t (field op v m) e =
      and_more op (operator-Spends t op v e) (operator_entries-AllSpend t m e)

  marks-conjunction : (parts : List Bytes) → marks (conjunction parts) ≡ all_marks parts
  unfolding join_with
  marks-conjunction [] = refl
  marks-conjunction (w ∷ []) = omega arith
  marks-conjunction (w ∷ v ∷ ws) =
      marks-in_parens (join_with (codes " AND ") (w ∷ v ∷ ws))
      ∙ marks-join_with (codes " AND ") (w ∷ v ∷ ws) refl

  on_target-Spends :
      (t : Target) (v : Json F) (ops : Option (Fields F))
      → marks t.expr ≡ 0
      → Spends 0 (on_target marshal promoted t v ops) marks
  unfolding compile_operators
  on_target-Spends t v none e = equality-Spends t v e
  on_target-Spends t v (some ops) e =
      >>=-Spends (run_all-Spends b'?' (sort_keys-AllSpend (operator_entries-AllSpend t ops e)))
        (λ parts. give-Spends _ (marks-conjunction parts))

  pub plain_key-Spends :
      (key : Bytes) (v : Json F)
      → Spends 0 (plain_key (compile_field marshal promoted) (codes "1") (codes "0") key v) marks
  unfolding compile_field
  plain_key-Spends key v = if-Spends (is_operator key) (refuse-Spends unsupported_key) (
      lift-Spends (target marshal promoted key)
        (λ t found. on_target-Spends t v (operators v) (target-marks key t found)))
