-- ===== src/Db/Sql/Replace.antt =====
-- Replacing the values of a filter, through what the compilers of db/sqlite and db/pg share.
use howl_go.Prelude.{
  ◌≡◌, refl, ◌++◌, Bool, true, false, Option, none, some, List, [], ◌∷◌, Bytes, Dict, length,
  if◌then◌else◌, arith,
}
use howl_go.Db.Value.{Json, null, bool, num, str, arr, obj, Items, nil, cons, Fields, end, field}
use howl_go.Db.Filter.{is_operator, operators, has_operator, is_null}
use howl_go.Db.Sql.{not_a_filter, not_a_list, unsupported_key, Action, refuse, all_filters, is_true}
use howl_go.Db.Sql.Actions.{
  Alike, AllAlike, no_more, and_more, give-Alike, refuse-Alike, if-Alike, >>=-Alike,
  sort_keys-AllAlike, run_all-Alike,
}
use howl_go.Db.Sql.Compile.{
  is_connective, operator_entries, compile_operators, conjoin, plain_key, compile_entries,
  compile_entry, compile_branches, compile_branch, compile,
}

-- The value with each text and each number replaced; the keys, the shape and the booleans stay.
module _ {F : Type 0} (text : Bytes → Bytes) (number : F → F) where
  unfoldable mutual
    pub replace : Json F → Json F
    replace null = null
    replace (bool b) = bool b
    replace (num n) = num (number n)
    replace (str s) = str (text s)
    replace (arr xs) = arr (replace_items xs)
    replace (obj m) = obj (replace_fields m)

    pub replace_items : Items F → Items F
    replace_items nil = nil
    replace_items (cons v vs) = cons (replace v) (replace_items vs)

    pub replace_fields : Fields F → Fields F
    replace_fields end = end
    replace_fields (field k v m) = field k (replace v) (replace_fields m)

-- an object or an array
abbrev pub is_container : {F : Type 0} → Json F → Bool
is_container (arr _) = true
is_container (obj _) = true
is_container _ = false

pub length-snoc :
    {A : Type 0} (ps qs : List A) (x y : A)
    → length ps ≡ length qs
    → length (ps ++ x ∷ []) ≡ length (qs ++ y ∷ [])
length-snoc [] [] x y l = refl
length-snoc (_ ∷ ps) (_ ∷ qs) x y l = ground (arith, length-snoc ps qs x y)
length-snoc [] (_ ∷ _) x y l = absurd (omega arith)
length-snoc (_ ∷ _) [] x y l = absurd (omega arith)

module _ {F : Type 0} (text : Bytes → Bytes) (number : F → F) where
  abbrev with : Json F → Json F
  with = replace text number

  pub is_null-replace : (v : Json F) → is_null (with v) ≡ is_null v
  unfolding is_null replace
  is_null-replace null = refl
  is_null-replace (bool b) = refl
  is_null-replace (num n) = refl
  is_null-replace (str s) = refl
  is_null-replace (arr xs) = refl
  is_null-replace (obj m) = refl

  pub is_container-replace : (v : Json F) → is_container (with v) ≡ is_container v
  unfolding replace
  is_container-replace null = refl
  is_container-replace (bool b) = refl
  is_container-replace (num n) = refl
  is_container-replace (str s) = refl
  is_container-replace (arr xs) = refl
  is_container-replace (obj m) = refl

  pub is_true-replace : (v : Json F) → is_true (with v) ≡ is_true v
  unfolding replace
  is_true-replace null = refl
  is_true-replace (bool b) = refl
  is_true-replace (num n) = refl
  is_true-replace (str s) = refl
  is_true-replace (arr xs) = refl
  is_true-replace (obj m) = refl

  abbrev pub replaced : Option (Fields F) → Option (Fields F)
  replaced none = none
  replaced (some m) = some (replace_fields text number m)

  pub has_operator-replace :
      (m : Fields F) → has_operator (replace_fields text number m) ≡ has_operator m
  unfolding replace_fields
  has_operator-replace end = refl
  has_operator-replace (field k v m) = rw (has_operator-replace m) refl

  pub operators-replace : (v : Json F) → operators (with v) ≡ replaced (operators v)
  unfolding operators replace
  operators-replace null = refl
  operators-replace (bool b) = refl
  operators-replace (num n) = refl
  operators-replace (str s) = refl
  operators-replace (arr xs) = refl
  operators-replace (obj m) = ground (arith, has_operator-replace m)

  module _ {P : Type 0} (operator : Bytes → Json F → Action P Bytes)
      (operator-Alike : (op : Bytes) (v : Json F)
        → Alike (operator op (with v)) (operator op v)) where
    operator_entries-AllAlike :
        (m : Fields F)
        → AllAlike
            (operator_entries operator (replace_fields text number m))
            (operator_entries operator m)
    unfolding operator_entries replace_fields
    operator_entries-AllAlike end = no_more
    operator_entries-AllAlike (field op v m) =
        and_more op (operator-Alike op v) (operator_entries-AllAlike m)

    pub compile_operators-Alike :
        (m : Fields F)
        → Alike
            (compile_operators operator (replace_fields text number m))
            (compile_operators operator m)
    unfolding compile_operators
    compile_operators-Alike m =
        >>=-Alike (run_all-Alike (sort_keys-AllAlike (operator_entries-AllAlike m)))
          (λ parts. give-Alike _)

  module _ {P : Type 0} (compile_field : Bytes → Json F → Action P Bytes) (yes_text no_text : Bytes)
      (compile_field-Alike : (path : Bytes) (v : Json F)
        → Alike (compile_field path (with v)) (compile_field path v)) where
    conjoin-Alike :
        {ms ns : Dict (Action P Bytes)}
        → AllAlike ms ns
        → Alike
            (conjoin compile_field yes_text no_text ms)
            (conjoin compile_field yes_text no_text ns)
    unfolding conjoin
    conjoin-Alike no_more = give-Alike yes_text
    conjoin-Alike (and_more k h t) =
        >>=-Alike (run_all-Alike (sort_keys-AllAlike (and_more k h t))) (λ parts. give-Alike _)

    plain_key-Alike :
        (key : Bytes) (v : Json F)
        → Alike
            (plain_key compile_field yes_text no_text key (with v))
            (plain_key compile_field yes_text no_text key v)
    plain_key-Alike key v =
        if-Alike (is_operator key) (refuse-Alike unsupported_key) (compile_field-Alike key v)

    -- a condition that is no list
    lone-Alike :
        (key : Bytes) (v : Json F)
        → Alike
            (if is_connective key
              then refuse not_a_list
              else plain_key compile_field yes_text no_text key (with v))
            (if is_connective key
              then refuse not_a_list
              else plain_key compile_field yes_text no_text key v)
    lone-Alike key v = if-Alike _ (refuse-Alike not_a_list) (plain_key-Alike key v)

    all_filters-replace :
        (xs : Items F) → all_filters (replace_items text number xs) ≡ all_filters xs
    unfolding all_filters replace_items replace
    all_filters-replace nil = refl
    all_filters-replace (cons null xs) = refl
    all_filters-replace (cons (bool b) xs) = refl
    all_filters-replace (cons (num n) xs) = refl
    all_filters-replace (cons (str s) xs) = refl
    all_filters-replace (cons (arr ys) xs) = refl
    all_filters-replace (cons (obj m) xs) = all_filters-replace xs

    mutual
      unfolding compile_entries compile_entry compile_branches compile_branch replace replace_items
          replace_fields

      compile_entries-AllAlike :
          (m : Fields F)
          → AllAlike
              (compile_entries compile_field yes_text no_text (replace_fields text number m))
              (compile_entries compile_field yes_text no_text m)
      compile_entries-AllAlike end = no_more
      compile_entries-AllAlike (field k v m) =
          and_more k (compile_entry-Alike k v) (compile_entries-AllAlike m)

      compile_entry-Alike :
          (k : Bytes) (v : Json F)
          → Alike
              (compile_entry compile_field yes_text no_text k (with v))
              (compile_entry compile_field yes_text no_text k v)
      compile_entry-Alike k null = lone-Alike k null
      compile_entry-Alike k (bool b) = lone-Alike k (bool b)
      compile_entry-Alike k (num n) = lone-Alike k (num n)
      compile_entry-Alike k (str s) = lone-Alike k (str s)
      compile_entry-Alike k (obj m) = lone-Alike k (obj m)
      compile_entry-Alike k (arr xs) = rw (all_filters-replace xs) (
          if-Alike (is_connective k)
            (if-Alike (all_filters xs)
              (>>=-Alike (compile_branches-Alike xs) (λ texts. give-Alike _))
              (refuse-Alike not_a_filter))
            (plain_key-Alike k (arr xs)))

      compile_branches-Alike :
          (xs : Items F)
          → Alike
              (compile_branches compile_field yes_text no_text (replace_items text number xs))
              (compile_branches compile_field yes_text no_text xs)
      compile_branches-Alike nil = give-Alike []
      compile_branches-Alike (cons b bs) =
          >>=-Alike (compile_branch-Alike b)
            (λ t. >>=-Alike (compile_branches-Alike bs) (λ ts. give-Alike _))

      compile_branch-Alike :
          (v : Json F)
          → Alike
              (compile_branch compile_field yes_text no_text (with v))
              (compile_branch compile_field yes_text no_text v)
      compile_branch-Alike null = refuse-Alike not_a_filter
      compile_branch-Alike (bool b) = refuse-Alike not_a_filter
      compile_branch-Alike (num n) = refuse-Alike not_a_filter
      compile_branch-Alike (str s) = refuse-Alike not_a_filter
      compile_branch-Alike (arr xs) = refuse-Alike not_a_filter
      compile_branch-Alike (obj m) = conjoin-Alike (compile_entries-AllAlike m)

    pub compile-Alike :
        (m : Fields F)
        → Alike
            (compile compile_field yes_text no_text (replace_fields text number m))
            (compile compile_field yes_text no_text m)
    unfolding compile
    compile-Alike m = conjoin-Alike (compile_entries-AllAlike m)
