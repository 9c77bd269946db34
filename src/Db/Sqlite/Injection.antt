-- ===== src/Db/Sqlite/Injection.antt =====
-- The SQL text does not depend on the values of a filter: db/sqlite/compile.go.
use howl_go.Prelude.{
  ◌≡◌, refl, sym, ◌∙◌, ◌++◌, Bool, true, false, ◌||◌, Option, none, some, List, [], ◌∷◌, Bytes,
  codes, str_eq, Dict,
}
use howl_go.Db.Value.{Json, null, bool, num, str, arr, obj, Items, nil, cons, Fields}
use howl_go.Db.Filter.{
  op_eq, op_ne, op_in, op_nin, op_gt, op_gte, op_lt, op_lte, op_exists, operators, is_null,
}
use howl_go.Db.Sql.{unsupported_operator, not_a_scalar, not_a_list, list_of}
use howl_go.Db.Sql.Actions.{
  Like, gave, Alike, give-Alike, refuse-Alike, lift-Alike, if-Alike, >>=-Alike,
}
use howl_go.Db.Sql.Replace.{
  replace, replace_items, replace_fields, is_container, length-snoc, is_null-replace,
  is_true-replace, is_container-replace, replaced, operators-replace, compile_operators-Alike,
  compile-Alike,
}
use howl_go.Db.Sqlite.{
  Column, Target, push, composite, json_path, equality, compared, json_text, bind_values,
  membership, operator, bound_to, on_target, target, compile_field, compile_where,
}
use howl_go.Db.Sql.Texts.{comparison}

module _ {F : Type 0} (marshal : Json F → Bytes) (promoted : Dict Column) (text : Bytes → Bytes)
    (number : F → F) (encodes : (v : Json F) → composite marshal promoted v ≡ is_container v) where
  abbrev with : Json F → Json F
  with = replace text number

  -- what is bound does not show
  push-Alike : (v w : Json F) → Alike (push v) (push w)
  unfolding push
  push-Alike v w = record { like = λ ps qs l. gave (codes "?") (length-snoc ps qs _ _ l) }

  bound_to-Alike : (v w : Json F) (f : Bytes → Bytes) → Alike (bound_to v f) (bound_to w f)
  bound_to-Alike v w f = >>=-Alike (push-Alike v w) (λ bound. give-Alike (f bound))

  composite-replace :
      (v : Json F) → composite marshal promoted (with v) ≡ composite marshal promoted v
  composite-replace v = encodes (with v) ∙ is_container-replace text number v ∙ sym (encodes v)

  equality-Alike :
      (t : Target) (v : Json F)
      → Alike (equality marshal promoted t (with v)) (equality marshal promoted t v)
  unfolding equality
  equality-Alike t v =
      rw (is_null-replace text number v, composite-replace v)
        (if-Alike (is_null v) (give-Alike _) (
          if-Alike (composite marshal promoted v)
            (>>=-Alike (lift-Alike (json_path t.segments)) (λ literal.
              bound_to-Alike (str (marshal (with v))) (str (marshal v)) (json_text literal)))
            (bound_to-Alike (with v) v (compared (codes " = ") t))))

  bind_values-Alike :
      (vs : Items F) (bound : List Bytes) (has_null : Bool)
      → Alike
          (bind_values marshal promoted (replace_items text number vs) bound has_null)
          (bind_values marshal promoted vs bound has_null)
  unfolding bind_values replace_items
  bind_values-Alike nil bound has_null = give-Alike (bound, has_null)
  bind_values-Alike (cons v vs) bound has_null =
      rw (is_null-replace text number v, composite-replace v)
        (if-Alike (is_null v) (bind_values-Alike vs bound true) (
          if-Alike (composite marshal promoted v) (refuse-Alike not_a_scalar) (
            >>=-Alike (push-Alike (with v) v)
              (λ one. bind_values-Alike vs (bound ++ one ∷ []) has_null))))

  membership-Alike :
      (t : Target) (op : Bytes) (v : Json F)
      → Alike (membership marshal promoted t op (with v)) (membership marshal promoted t op v)
  unfolding membership list_of replace
  membership-Alike t op (arr xs) = >>=-Alike (bind_values-Alike xs [] false) (λ found. give-Alike _)
  membership-Alike t op null = refuse-Alike not_a_list
  membership-Alike t op (bool b) = refuse-Alike not_a_list
  membership-Alike t op (num n) = refuse-Alike not_a_list
  membership-Alike t op (str s) = refuse-Alike not_a_list
  membership-Alike t op (obj m) = refuse-Alike not_a_list

  operator-Alike :
      (t : Target) (op : Bytes) (v : Json F)
      → Alike (operator marshal promoted t op (with v)) (operator marshal promoted t op v)
  unfolding operator
  operator-Alike t op v =
      rw (is_null-replace text number v, is_true-replace text number v)
        (if-Alike (str_eq op op_eq) (equality-Alike t v) (
          if-Alike (str_eq op op_ne)
            (if-Alike (is_null v) (give-Alike _)
              (bound_to-Alike (with v) v (compared (codes " IS NOT ") t)))
            (if-Alike (str_eq op op_in || str_eq op op_nin) (membership-Alike t op v) (
              if-Alike (str_eq op op_gt || str_eq op op_gte || str_eq op op_lt || str_eq op op_lte)
                (bound_to-Alike (with v) v (compared (b' ' ∷ (comparison op ++ codes " ")) t))
                (if-Alike (str_eq op op_exists)
                  (>>=-Alike (lift-Alike (json_path t.segments)) (λ literal. give-Alike _))
                  (refuse-Alike unsupported_operator))))))

  compile_field-Alike :
      (path : Bytes) (v : Json F)
      → Alike (compile_field marshal promoted path (with v)) (compile_field marshal promoted path v)
  unfolding compile_field
  compile_field-Alike path v =
      >>=-Alike (lift-Alike (target marshal promoted path))
        (λ t. rw (operators-replace text number v) (on_target-Alike t (operators v)))
    where
      on_target-Alike :
          (t : Target) (ops : Option (Fields F))
          → Alike
              (on_target marshal promoted t (with v) (replaced text number ops))
              (on_target marshal promoted t v ops)
      on_target-Alike t none = equality-Alike t v
      on_target-Alike t (some ops) =
          compile_operators-Alike text number (operator marshal promoted t) (operator-Alike t) ops

  -- Replacing the texts and the numbers of a filter by any others changes neither the SQL text that
  -- it compiles to nor how many parameters are bound, nor the refusal where it is refused: no value
  -- of a filter reaches the text. It is assumed that the JSON encoding of a value opens a brace or a
  -- bracket exactly for an object or an array.
  pub compile_where-replace :
      (filter : Fields F)
      → Like
          (compile_where marshal promoted (replace_fields text number filter))
          (compile_where marshal promoted filter)
  unfolding compile_where
  compile_where-replace filter =
      (compile-Alike text number (compile_field marshal promoted) (codes "1") (codes "0")
          compile_field-Alike filter).like
        [] [] refl
