-- ===== src/Db/Pg.antt =====
-- db/pg/compile.go: the filter grammar compiled to a WHERE expression of Postgres with its
-- parameters, numbered from a start. json.Marshal and strconv.Itoa are parameters. The type of a
-- column, which no clause reads, is left out. A condition of another Go type than a decoded JSON
-- value does not occur.
pub mod Injection
mod Tests
use howl_go.Prelude.{
  ℕ, ◌+◌, ◌-◌, ◌++◌, Bool, true, false, not, ◌||◌, Option, none, some, List, [], ◌∷◌, Bytes, codes,
  str_eq, Dict, lookup, is_nil, length, if◌then◌else◌,
}
use howl_go.Db.Value.{Json, str, Items, nil, cons, Fields}
use howl_go.Db.Filter.{
  op_eq, op_ne, op_in, op_nin, op_gt, op_gte, op_lt, op_lte, op_exists, id_path, path_of, operators,
  is_null,
}
use howl_go.Db.Sql.Texts.{assert_ident, assert_all, comparison, part_if, join_parts, list_text}
use howl_go.Db.Sql.Compile.{compile_operators, compile}
use howl_go.Db.Sql.{
  unsupported_operator, Outcome, ok, refused, Action, ◌>>=◌, give, refuse, lift, in_parens, is_true,
  list_of,
}

-- One promoted document path and the generated column behind it.
pub record Column : Type 0 where
  pub name : Bytes
  pub segments : List Bytes

pub record Target : Type 0 where
  pub expr : Bytes
  pub is_column : Bool
  pub segments : List Bytes

-- the loop over the segments, with what is written so far
unfoldable pub jsonb_steps : List Bytes → Bytes → Outcome Bytes
unfolding assert_ident
jsonb_steps [] written = ok written
jsonb_steps (segment ∷ segments) written = elim (assert_ident segment) [
  | ok _ ↦ jsonb_steps segments (written ++ (codes "->'" ++ (segment ++ codes "'")))
  | refused e ↦ refused e
]

unfoldable pub jsonb_path : List Bytes → Outcome Bytes
jsonb_path segments = jsonb_steps segments (codes "doc")

unfoldable pub null_match : Target → Bytes
null_match t =
    if t.is_column
    then t.expr ++ codes " IS NULL"
    else codes "(" ++ (t.expr ++ (codes " IS NULL OR " ++ (t.expr ++ codes " = 'null'::jsonb)")))

-- the parts of $in, and the constant where there are none
unfoldable pub in_text : Target → List Bytes → Bool → Bytes
in_text t bound has_null =
    let listed = list_text t.expr (codes " IN (") bound in
    let parts = part_if (not (is_nil bound)) listed (part_if has_null (null_match t) []) in
    if is_nil parts then codes "FALSE" else join_parts parts (codes " OR ")

-- the same for $nin
unfoldable pub nin_text : Target → List Bytes → Bool → Bytes
nin_text t bound has_null =
    let listed = list_text t.expr (codes " NOT IN (") bound in
    let absent = in_parens (t.expr ++ (codes " IS NULL OR " ++ listed)) in
    let parts =
      part_if (not (is_nil bound)) (if has_null then listed else absent)
        (part_if has_null (codes "NOT " ++ null_match t) []) in
    if is_nil parts then codes "TRUE" else join_parts parts (codes " AND ")

module _ {F : Type 0} (marshal : Json F → Bytes) (itoa : ℕ → Bytes) (promoted : Dict Column)
    (start : ℕ) where
  unfoldable pub push : Json F → Action (Json F) Bytes
  push v ps = let params = ps ++ v ∷ [] in ok (b'$' ∷ itoa (start + length params - 1), params)

  -- a path that is not `id`, once its segments are identifiers
  abbrev pub column_or_document : Option Column → List Bytes → Outcome Target
  column_or_document (some column) segments =
      ok
        (record { expr = b'"' ∷ (column.name ++ b'"' ∷ []); is_column = true; segments = segments })
  column_or_document none segments = elim (jsonb_path segments) [
    | ok expr ↦ ok (record { expr = expr; is_column = false; segments = segments })
    | refused e ↦ refused e
  ]

  unfoldable pub target : Bytes → Outcome Target
  target path =
      if str_eq path id_path
      then ok (record { expr = id_path; is_column = true; segments = id_path ∷ [] })
      else elim (assert_all (path_of path)) [
        | ok _ ↦ column_or_document (lookup path promoted) (path_of path)
        | refused e ↦ refused e
      ]

  -- value: one operand bound, for a column as it is and for a JSONB expression as its encoding
  unfoldable pub bind_value : Target → Json F → Action (Json F) Bytes
  bind_value t v =
      if t.is_column
      then push v
      else (do bound ← push (str (marshal v)); give (bound ++ codes "::jsonb"))

  -- an expression, a sign and one operand bound
  abbrev pub compared : Target → Bytes → Json F → Action (Json F) Bytes
  compared t sign v = do bound ← bind_value t v; give (t.expr ++ (sign ++ bound))

  -- a value to equal, where null asks for no value
  unfoldable pub equality : Target → Json F → Action (Json F) Bytes
  unfolding is_null
  equality t v = if is_null v then give (null_match t) else compared t (codes " = ") v

  -- the loop of membership: the placeholders, and whether the list holds null
  unfoldable pub bind_values :
      Target → Items F → List Bytes → Bool → Action (Json F) (List Bytes × Bool)
  unfolding is_null
  bind_values t nil bound has_null = give (bound, has_null)
  bind_values t (cons v vs) bound has_null =
      let skipped = bind_values t vs bound true in
      if is_null v
      then skipped
      else (do text ← bind_value t v; bind_values t vs (bound ++ text ∷ []) has_null)

  unfoldable pub membership : Target → Bytes → Json F → Action (Json F) Bytes
  membership t op operand = do
    values ← lift (list_of operand)
    (bound, has_null) ← bind_values t values [] false
    give (if str_eq op op_in then in_text t bound has_null else nin_text t bound has_null)

  unfoldable pub operator : Target → Bytes → Json F → Action (Json F) Bytes
  unfolding is_null
  operator t op operand =
      if str_eq op op_eq
      then equality t operand
      else if str_eq op op_ne
      then (if is_null operand
          then give (codes "NOT " ++ null_match t)
          else compared t (codes " IS DISTINCT FROM ") operand)
      else if str_eq op op_in || str_eq op op_nin
      then membership t op operand
      else if str_eq op op_gt || str_eq op op_gte || str_eq op op_lt || str_eq op op_lte
      then compared t (b' ' ∷ (comparison op ++ codes " ")) operand
      else if str_eq op op_exists
      then (do
        expr ← lift (jsonb_path t.segments)
        give (expr ++ (if is_true operand then codes " IS NOT NULL" else codes " IS NULL")))
      else refuse unsupported_operator

  -- a condition on a target: a value to equal, or operators
  abbrev pub on_target : Target → Json F → Option (Fields F) → Action (Json F) Bytes
  on_target t condition none = equality t condition
  on_target t condition (some ops) = compile_operators (operator t) ops

  unfoldable pub compile_field : Bytes → Json F → Action (Json F) Bytes
  compile_field path condition = do
    t ← lift (target path)
    on_target t condition (operators condition)

  unfoldable pub compile_where : Fields F → Outcome (Bytes × List (Json F))
  compile_where filter = compile compile_field (codes "TRUE") (codes "FALSE") filter []
