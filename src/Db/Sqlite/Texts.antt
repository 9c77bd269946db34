-- ===== src/Db/Sqlite/Texts.antt =====
-- How many placeholders stand in the texts of db/sqlite/compile.go.
use howl_go.Prelude.{
  ℕ, ◌+◌, ◌≡◌, refl, ◌∙◌, ◌++◌, Bool, true, false, List, [], ◌∷◌, Bytes, codes, join, arith, all,
}
use howl_go.Db.Sql.{ok, is_identifier, is_word, join_with, in_parens}
use howl_go.Db.Sql.Marks.{
  occurrences, total, occurrences-append, occurrences-join_with, occurrences-join,
}
use howl_go.Db.Sqlite.{Target, json_path, compared, json_text, in_text, nin_text}
use howl_go.Db.Sql.Texts.{assert_ident, assert_all, comparison, list_text, join_parts}

-- placeholders
abbrev pub marks : Bytes → ℕ
marks = occurrences b'?'

abbrev pub all_marks : List Bytes → ℕ
all_marks = total b'?'

pub marks-append : (s t : Bytes) → marks (s ++ t) ≡ marks s + marks t
marks-append = occurrences-append b'?'

marks-words : (s : Bytes) → all is_word s ≡ true → marks s ≡ 0
marks-words [] h = refl
marks-words (c ∷ s) h = ground (arith, marks-words s)

pub marks-identifier : (s : Bytes) → is_identifier s ≡ true → marks s ≡ 0
unfolding is_identifier
marks-identifier [] h = refl
marks-identifier (c ∷ s) h = ground (arith, marks-words s)

pub marks-assert_ident : (s t : Bytes) → assert_ident s ≡ ok t → marks s ≡ 0
unfolding assert_ident
marks-assert_ident s t h = ground (arith, marks-identifier s)

pub marks-assert_all :
    (segments : List Bytes) → assert_all segments ≡ ok tt → all_marks segments ≡ 0
unfolding assert_all
marks-assert_all [] h = refl
marks-assert_all (s ∷ ss) h = ground (arith, marks-assert_ident s s, marks-assert_all ss)

pub marks-json_path :
    (segments : List Bytes) (literal : Bytes) → json_path segments ≡ ok literal → marks literal ≡ 0
unfolding json_path
marks-json_path segments literal h = ground (
  arith,
  marks-assert_all segments,
  marks-append (codes "'$.") (join b'.' segments ++ codes "'"),
  marks-append (join b'.' segments) (codes "'"),
  occurrences-join b'?' b'.' segments,
)

pub marks-in_parens : (s : Bytes) → marks (in_parens s) ≡ marks s
marks-in_parens s = omega (arith, marks-append s (b')' ∷ []))

pub marks-join_with :
    (separator : Bytes) (ws : List Bytes)
    → marks separator ≡ 0
    → marks (join_with separator ws) ≡ all_marks ws
marks-join_with = occurrences-join_with b'?'

pub marks-join_parts :
    (ws : List Bytes) (separator : Bytes)
    → marks separator ≡ 0
    → marks (join_parts ws separator) ≡ all_marks ws
unfolding join_parts
marks-join_parts [] separator h = refl
marks-join_parts (w ∷ []) separator h = omega arith
marks-join_parts (w ∷ v ∷ ws) separator h =
    marks-in_parens (join_with separator (w ∷ v ∷ ws)) ∙ marks-join_with separator (w ∷ v ∷ ws) h

pub marks-list_text :
    (expr sign : Bytes) (bound : List Bytes)
    → marks (list_text expr sign bound) ≡ marks expr + marks sign + all_marks bound
unfolding list_text
marks-list_text expr sign bound = omega (
  arith,
  marks-append expr (sign ++ (join_with (codes ", ") bound ++ codes ")")),
  marks-append sign (join_with (codes ", ") bound ++ codes ")"),
  marks-append (join_with (codes ", ") bound) (codes ")"),
  marks-join_with (codes ", ") bound refl,
)

pub marks-in_text :
    (expr : Bytes) (bound : List Bytes) (has_null : Bool)
    → marks expr ≡ 0
    → marks (in_text expr bound has_null) ≡ all_marks bound
unfolding in_text
marks-in_text expr [] true h = omega (arith, h, marks-append expr (codes " IS NULL"))
marks-in_text expr [] false h = refl
marks-in_text expr (b ∷ bs) true h = omega (
  arith,
  h,
  marks-join_parts (list_text expr (codes " IN (") (b ∷ bs) ∷ (expr ++ codes " IS NULL") ∷ [])
      (codes " OR ") refl,
  marks-list_text expr (codes " IN (") (b ∷ bs),
  marks-append expr (codes " IS NULL"),
)
marks-in_text expr (b ∷ bs) false h = omega (
  arith,
  h,
  marks-join_parts (list_text expr (codes " IN (") (b ∷ bs) ∷ []) (codes " OR ") refl,
  marks-list_text expr (codes " IN (") (b ∷ bs),
)

pub marks-nin_text :
    (expr : Bytes) (bound : List Bytes) (has_null : Bool)
    → marks expr ≡ 0
    → marks (nin_text expr bound has_null) ≡ all_marks bound
unfolding nin_text
marks-nin_text expr [] true h = omega (arith, h, marks-append expr (codes " IS NOT NULL"))
marks-nin_text expr [] false h = refl
marks-nin_text expr (b ∷ bs) true h = omega (
  arith,
  h,
  marks-join_parts
      (list_text expr (codes " NOT IN (") (b ∷ bs) ∷ (expr ++ codes " IS NOT NULL") ∷ [])
      (codes " AND ") refl,
  marks-list_text expr (codes " NOT IN (") (b ∷ bs),
  marks-append expr (codes " IS NOT NULL"),
)
marks-nin_text expr (b ∷ bs) false h =
    let listed = list_text expr (codes " NOT IN (") (b ∷ bs) in
    omega (
      arith,
      h,
      marks-in_parens (expr ++ (codes " IS NULL OR " ++ listed)),
      marks-append expr (codes " IS NULL OR " ++ listed),
      marks-append (codes " IS NULL OR ") listed,
      marks-list_text expr (codes " NOT IN (") (b ∷ bs),
    )

pub marks-compared :
    (sign : Bytes) (t : Target) (bound : Bytes)
    → marks t.expr ≡ 0
    → marks sign ≡ 0
    → marks (compared sign t bound) ≡ marks bound
marks-compared sign t bound e z =
    omega (arith, e, z, marks-append t.expr (sign ++ bound), marks-append sign bound)

pub marks-json_text :
    (literal bound : Bytes) → marks literal ≡ 0 → marks (json_text literal bound) ≡ marks bound
marks-json_text literal bound e = omega (
  arith,
  e,
  marks-append literal (codes " = json(" ++ (bound ++ codes ")")),
  marks-append bound (codes ")"),
)

pub marks-comparison : (op : Bytes) → marks (b' ' ∷ (comparison op ++ codes " ")) ≡ 0
marks-comparison op = ground arith
