-- ===== src/Db/Sql/Texts.antt =====
-- Texts that db/sqlite/compile.go and db/pg/compile.go build in the same way.
use howl_go.Prelude.{◌++◌, Bool, true, false, List, [], ◌∷◌, Bytes, codes, str_eq, if◌then◌else◌}
use howl_go.Db.Filter.{op_gt, op_gte, op_lt}
use howl_go.Db.Sql.{invalid_identifier, Outcome, ok, refused, join_with, in_parens, is_identifier}

unfoldable pub assert_ident : Bytes → Outcome Bytes
unfolding is_identifier
assert_ident segment = if is_identifier segment then ok segment else refused invalid_identifier

-- the loop over the segments
unfoldable pub assert_all : List Bytes → Outcome (Unit {0})
unfolding assert_ident
assert_all [] = ok tt
assert_all (segment ∷ segments) = elim (assert_ident segment) [
  | ok _ ↦ assert_all segments
  | refused e ↦ refused e
]

-- the map comparison
abbrev pub comparison : Bytes → Bytes
comparison op =
    if str_eq op op_gt
    then codes ">"
    else if str_eq op op_gte
    then codes ">="
    else if str_eq op op_lt
    then codes "<"
    else codes "<="

-- one part, where there is something to say
abbrev pub part_if : Bool → Bytes → List Bytes → List Bytes
part_if true part parts = part ∷ parts
part_if false part parts = parts

unfoldable pub join_parts : List Bytes → Bytes → Bytes
unfolding join_with
join_parts (part ∷ []) separator = part
join_parts parts separator = in_parens (join_with separator parts)

-- an expression, a sign, and the placeholders in parentheses
unfoldable pub list_text : Bytes → Bytes → List Bytes → Bytes
list_text expr sign bound = expr ++ (sign ++ (join_with (codes ", ") bound ++ codes ")"))
