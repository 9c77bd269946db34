-- ===== src/Db/Pg/Injection.antt =====
-- The SQL text does not depend on the values of a filter: db/pg/compile.go.
use howl_go.Prelude.{
  ℕ, ◌+◌, ◌-◌, ◌≡◌, refl, ◌++◌, Bool, true, false, ◌||◌, Option, none, some, List, [], ◌∷◌, Bytes,
  codes, str_eq, Dict, length,
}
use howl_go.Db.Value.{Json, null, bool, num, str, arr, obj, Items, nil, cons, Fields}
use howl_go.Db.Filter.{
  op_eq, op_ne, op_in, op_nin, op_gt, op_gte, op_lt, op_lte, op_exists, operators, is_null,
}
use howl_go.Db.Sql.{unsupported_operator, not_a_list, ok, list_of}
use howl_go.Db.Sql.Actions.{
  Like, gave, Alike, give-Alike, refuse-Alike, lift-Alike, if-Alike, >>=-Alike,
}
use howl_go.Db.Sql.Replace.{
  replace, replace_items, replace_fields, length-snoc, is_null-replace, is_true-replace, replaced,
  operators-replace, compile_operators-Alike, compile-Alike,
}
use howl_go.Db.Sql.Texts.{comparison}
use howl_go.Db.Pg.{
  Column, Target, jsonb_path, push, target, bind_value, compared, equality, bind_values, membership,
  operator, on_target, compile_field, compile_where,
}

module _ {F : Type 0} (marshal : Json F → Bytes) (itoa : ℕ → Bytes) (promoted : Dict Column)
    (start : ℕ) (text : Bytes → Bytes) (number : F → F) where
  abbrev with : Json F → Json F
  with = replace text number

  -- the placeholder tells only how many parameters there are
  push-Alike :
      (v w : Json F)
      → Alike (push marshal itoa promoted start v) (push marshal itoa promoted start w)
  unfolding push
  push-Alike v w = record { like = λ ps qs l. numbered ps qs (length-snoc ps qs v w l) }
    where
      numbered :
          (ps qs : List (Json F))
          → length (ps ++ v ∷ []) ≡ length (qs ++ w ∷ [])
          → Like
              (ok (b'$' ∷ itoa (start + length (ps ++ v ∷ []) - 1), ps ++ v ∷ []))
              (ok (b'$' ∷ itoa (start + length (qs ++ w ∷ []) - 1), qs ++ w ∷ []))
      numbered ps qs l = rw l (gave _ l)

  bind_value-Alike :
      (t : Target) (v w : Json F)
      → Alike
          (bind_value marshal itoa promoted start t v)
          (bind_value marshal itoa promoted start t w)
  unfolding bind_value
  bind_value-Alike t v w =
      if-Alike t.is_column (push-Alike v w)
        (>>=-Alike (push-Alike (str (marshal v)) (str (marshal w))) (λ bound. give-Alike _))

  compared-Alike :
      (t : Target) (sign : Bytes) (v w : Json F)
      → Alike
          (compared marshal itoa promoted start t sign v)
          (compared marshal itoa promoted start t sign w)
  compared-Alike t sign v w = >>=-Alike (bind_value-Alike t v w) (λ bound. give-Alike _)

  equality-Alike :
      (t : Target) (v : Json F)
      → Alike
          (equality marshal itoa promoted start t (with v))
          (equality marshal itoa promoted start t v)
  unfolding equality
  equality-Alike t v =
      rw (is_null-replace text number v)
        (if-Alike (is_null v) (give-Alike _) (compared-Alike t (codes " = ") (with v) v))

  bind_values-Alike :
      (t : Target) (vs : Items F) (bound : List Bytes) (has_null : Bool)
      → Alike
          (bind_values marshal itoa promoted start t (replace_items text number vs) bound has_null)
          (bind_values marshal itoa promoted start t vs bound has_null)
  unfolding bind_values replace_items
  bind_values-Alike t nil bound has_null = give-Alike (bound, has_null)
  bind_values-Alike t (cons v vs) bound has_null = rw (is_null-replace text number v) (
      if-Alike (is_null v) (bind_values-Alike t vs bound true) (
        >>=-Alike (bind_value-Alike t (with v) v)
          (λ one. bind_values-Alike t vs (bound ++ one ∷ []) has_null)))

  membership-Alike :
      (t : Target) (op : Bytes) (v : Json F)
      → Alike
          (membership marshal itoa promoted start t op (with v))
          (membership marshal itoa promoted start t op v)
  unfolding membership list_of replace
  membership-Alike t op (arr xs) =
      >>=-Alike (bind_values-Alike t xs [] false) (λ found. give-Alike _)
  membership-Alike t op null = refuse-Alike not_a_list
  membership-Alike t op (bool b) = refuse-Alike not_a_list
  membership-Alike t op (num n) = refuse-Alike not_a_list
  membership-Alike t op (str s) = refuse-Alike not_a_list
  membership-Alike t op (obj m) = refuse-Alike not_a_list

  operator-Alike :
      (t : Target) (op : Bytes) (v : Json F)
      → Alike
          (operator marshal itoa promoted start t op (with v))
          (operator marshal itoa promoted start t op v)
  unfolding operator
  operator-Alike t op v =
      rw (is_null-replace text number v, is_true-replace text number v)
        (if-Alike (str_eq op op_eq) (equality-Alike t v) (
          if-Alike (str_eq op op_ne)
            (if-Alike (is_null v) (give-Alike _)
              (compared-Alike t (codes " IS DISTINCT FROM ") (with v) v))
            (if-Alike (str_eq op op_in || str_eq op op_nin) (membership-Alike t op v) (
              if-Alike (str_eq op op_gt || str_eq op op_gte || str_eq op op_lt || str_eq op op_lte)
                (compared-Alike t (b' ' ∷ (comparison op ++ codes " ")) (with v) v)
                (if-Alike (str_eq op op_exists)
                  (>>=-Alike (lift-Alike (jsonb_path t.segments)) (λ literal. give-Alike _))
                  (refuse-Alike unsupported_operator))))))

  on_target-Alike :
      (t : Target) (v : Json F) (ops : Option (Fields F))
      → Alike
          (on_target marshal itoa promoted start t (with v) (replaced text number ops))
          (on_target marshal itoa promoted start t v ops)
  on_target-Alike t v none = equality-Alike t v
  on_target-Alike t v (some ops) =
      compile_operators-Alike text number (operator marshal itoa promoted start t)
        (operator-Alike t) ops

  compile_field-Alike :
      (path : Bytes) (v : Json F)
      → Alike
          (compile_field marshal itoa promoted start path (with v))
          (compile_field marshal itoa promoted start path v)
  unfolding compile_field
  compile_field-Alike path v =
      >>=-Alike (lift-Alike (target marshal itoa promoted start path))
        (λ t. rw (operators-replace text number v) (on_target-Alike t v (operators v)))

  -- Replacing the texts and the numbers of a filter by any others changes neither the Postgres text
  -- that it compiles to, placeholders and their numbers included, nor how many parameters are bound,
  -- nor the refusal where it is refused: no value of a filter reaches the text.
  pub compile_pg-replace :
      (filter : Fields F)
      → Like
          (compile_where marshal itoa promoted start (replace_fields text number filter))
          (compile_where marshal itoa promoted start filter)
  unfolding compile_where
  compile_pg-replace filter =
      (compile-Alike text number (compile_field marshal itoa promoted start) (codes "TRUE")
          (codes "FALSE") compile_field-Alike filter).like
        [] [] refl
