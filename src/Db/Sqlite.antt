-- ===== src/Db/Sqlite.antt =====
-- db/sqlite/compile.go: the filter grammar compiled to a WHERE expression of SQLite with its
-- parameters. json.Marshal is a parameter. A condition of another Go type than a decoded JSON value
-- does not occur.
mod Texts
pub mod Injection
mod Binding
pub mod Placeholders
mod Tests
use howl_go.Prelude.{
  ℕ, ◌++◌, Bool, true, false, ◌||◌, Option, none, some, List, [], ◌∷◌, Bytes, codes, str_eq, join,
  Dict, lookup, is_nil, ◌==◌, if◌then◌else◌,
}
use howl_go.Db.Value.{Json, null, bool, str, arr, obj, Items, nil, cons, Fields, end, field}
use howl_go.Db.Filter.{
  op_eq, op_ne, op_in, op_nin, op_gt, op_gte, op_lt, op_lte, op_exists, op_or, op_and, id_path,
  is_operator, path_of, operators, is_null,
}
use howl_go.Db.Sql.Texts.{assert_all, comparison, part_if, join_parts, list_text}
use howl_go.Db.Sql.Compile.{compile_operators, compile}
use howl_go.Db.Sql.{
  invalid_identifier, unsupported_operator, unsupported_key, not_a_list, not_a_scalar, not_a_filter,
  Outcome, ok, refused, Action, ◌>>=◌, give, refuse, lift, join_with, in_parens, is_identifier,
  sort_keys, run_all, is_end, is_true, list_of, all_filters,
}

-- A bound parameter: a value, or the integer that a boolean becomes.
pub data Param (F : Type 0) : Type 0 where
  value : Json F → Param F
  int : ℕ → Param F

-- One promoted document path and the generated column behind it; the compiler reads its name.
pub record Column : Type 0 where
  pub name : Bytes

pub record Target : Type 0 where
  pub expr : Bytes
  pub segments : List Bytes

unfoldable pub json_path : List Bytes → Outcome Bytes
unfolding assert_all
json_path segments = elim (assert_all segments) [
  | ok _ ↦ ok (codes "'$." ++ (join b'.' segments ++ codes "'"))
  | refused e ↦ refused e
]

-- the parts of $in, and the constant where there are none
unfoldable pub in_text : Bytes → List Bytes → Bool → Bytes
in_text expr bound has_null =
    let listed = list_text expr (codes " IN (") bound in
    let absent = expr ++ codes " IS NULL" in
    if is_nil bound
    then (if has_null then absent else codes "0")
    else join_parts (listed ∷ part_if has_null absent []) (codes " OR ")

-- the same for $nin
unfoldable pub nin_text : Bytes → List Bytes → Bool → Bytes
nin_text expr bound has_null =
    let listed = list_text expr (codes " NOT IN (") bound in
    let present = expr ++ codes " IS NOT NULL" in
    if is_nil bound
    then (if has_null then present else codes "1")
    else if has_null
    then join_parts (listed ∷ present ∷ []) (codes " AND ")
    else in_parens (expr ++ (codes " IS NULL OR " ++ listed))

abbrev pub compared : Bytes → Target → Bytes → Bytes
compared sign t bound = t.expr ++ (sign ++ bound)

abbrev pub json_text : Bytes → Bytes → Bytes
json_text literal bound = codes "doc->" ++ (literal ++ (codes " = json(" ++ (bound ++ codes ")")))

unfoldable pub exists_text : Bool → Bytes → Bytes
exists_text want literal =
    codes "json_type(doc, "
    ++ (literal ++ (if want then codes ") IS NOT NULL" else codes ") IS NULL"))

module _ {F : Type 0} where
  -- the boolean of a parameter becomes an integer
  abbrev pub as_param : Json F → Param F
  as_param (bool true) = int 1
  as_param (bool false) = int 0
  as_param v = value v

  -- push: the text is the placeholder
  unfoldable pub push : Json F → Action (Param F) Bytes
  push v ps = ok (codes "?", ps ++ as_param v ∷ [])

  -- a text around one bound parameter
  abbrev pub bound_to : Json F → (Bytes → Bytes) → Action (Param F) Bytes
  bound_to v text = do bound ← push v; give (text bound)

module _ {F : Type 0} (marshal : Json F → Bytes) (promoted : Dict Column) where
  -- the JSON path of a target, or its refusal
  abbrev pub on_literal : Target → (Bytes → Action (Param F) Bytes) → Action (Param F) Bytes
  on_literal t next = do literal ← lift (json_path t.segments); next literal

  -- the first byte of the encoding
  unfoldable pub composite : Json F → Bool
  composite v = elim (marshal v) [ [] ↦ false | c ∷ _ ↦ (c == b'{') || (c == b'[') ]

  -- a path that is not `id`, once its segments are identifiers
  abbrev pub column_or_document : Option Column → List Bytes → Outcome Target
  column_or_document (some column) segments =
      ok (record { expr = b'"' ∷ (column.name ++ b'"' ∷ []); segments = segments })
  column_or_document none segments = elim (json_path segments) [
    | ok literal ↦ ok (record { expr = codes "doc->>" ++ literal; segments = segments })
    | refused e ↦ refused e
  ]

  unfoldable pub target : Bytes → Outcome Target
  target path =
      if str_eq path id_path
      then ok (record { expr = id_path; segments = id_path ∷ [] })
      else elim (assert_all (path_of path)) [
        | ok _ ↦ column_or_document (lookup path promoted) (path_of path)
        | refused e ↦ refused e
      ]

  unfoldable pub equality : Target → Json F → Action (Param F) Bytes
  unfolding is_null
  equality t v =
      if is_null v
      then give (t.expr ++ codes " IS NULL")
      else if composite v
      then on_literal t (λ literal. bound_to (str (marshal v)) (json_text literal))
      else bound_to v (compared (codes " = ") t)

  -- the loop of membership: the placeholders, and whether the list holds null
  unfoldable pub bind_values : Items F → List Bytes → Bool → Action (Param F) (List Bytes × Bool)
  unfolding is_null
  bind_values nil bound has_null = give (bound, has_null)
  bind_values (cons v vs) bound has_null =
      let skipped = bind_values vs bound true in
      if is_null v
      then skipped
      else if composite v
      then refuse not_a_scalar
      else (do one ← push v; bind_values vs (bound ++ one ∷ []) has_null)

  unfoldable pub membership : Target → Bytes → Json F → Action (Param F) Bytes
  membership t op operand = do
    values ← lift (list_of operand)
    (bound, has_null) ← bind_values values [] false
    give (if str_eq op op_in then in_text t.expr bound has_null else nin_text t.expr bound has_null)

  unfoldable pub operator : Target → Bytes → Json F → Action (Param F) Bytes
  operator t op operand =
      if str_eq op op_eq
      then equality t operand
      else if str_eq op op_ne
      then (if is_null operand
          then give (t.expr ++ codes " IS NOT NULL")
          else bound_to operand (compared (codes " IS NOT ") t))
      else if str_eq op op_in || str_eq op op_nin
      then membership t op operand
      else if str_eq op op_gt || str_eq op op_gte || str_eq op op_lt || str_eq op op_lte
      then bound_to operand (compared (b' ' ∷ (comparison op ++ codes " ")) t)
      else if str_eq op op_exists
      then on_literal t (λ literal. give (exists_text (is_true operand) literal))
      else refuse unsupported_operator

  -- a condition on a target: a value to equal, or operators
  abbrev pub on_target : Target → Json F → Option (Fields F) → Action (Param F) Bytes
  on_target t condition none = equality t condition
  on_target t condition (some ops) = compile_operators (operator t) ops

  unfoldable pub compile_field : Bytes → Json F → Action (Param F) Bytes
  compile_field path condition = do
    t ← lift (target path)
    on_target t condition (operators condition)

  unfoldable pub compile_where : Fields F → Outcome (Bytes × List (Param F))
  compile_where filter = compile compile_field (codes "1") (codes "0") filter []
