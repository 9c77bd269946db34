-- ===== src/Db/Filter.antt =====
-- db/filter.go and db/memdb/filter.go: the filter grammar, evaluated against one document.
-- A filter is a JSON object; an operand is the value that normalize gives, a map of the program
-- being an object and a slice an array. A conjunction visits a map's entries in any order.
pub mod Logic
pub mod Sorting
use howl_go.Prelude.{
  ℕ, Bool, true, false, not, ◌&&◌, ◌||◌, Option, none, some, List, [], ◌∷◌, Bytes, codes, str_eq,
  has_prefix, split, if◌then◌else◌, is_some,
}
use howl_go.Db.Value.{
  Json, null, bool, num, str, arr, obj, Items, nil, cons, Fields, end, field, Numbers, get, put,
  get_path, Order, less, same, greater, str_compare,
}

abbrev pub op_eq : Bytes
op_eq = codes "$eq"

abbrev pub op_ne : Bytes
op_ne = codes "$ne"

abbrev pub op_in : Bytes
op_in = codes "$in"

abbrev pub op_nin : Bytes
op_nin = codes "$nin"

abbrev pub op_gt : Bytes
op_gt = codes "$gt"

abbrev pub op_gte : Bytes
op_gte = codes "$gte"

abbrev pub op_lt : Bytes
op_lt = codes "$lt"

abbrev pub op_lte : Bytes
op_lte = codes "$lte"

abbrev pub op_exists : Bytes
op_exists = codes "$exists"

abbrev pub op_or : Bytes
op_or = codes "$or"

abbrev pub op_and : Bytes
op_and = codes "$and"

abbrev pub id_path : Bytes
id_path = codes "id"

abbrev pub version_path : Bytes
version_path = codes "version"

abbrev pub meta_path : Bytes
meta_path = codes "meta"

abbrev pub deleted_at : Bytes
deleted_at = codes "deleted_at"

abbrev pub deleted_at_path : Bytes
deleted_at_path = codes "meta.deleted_at"

-- One term of an ORDER BY.
pub record SortKey : Type 0 where
  pub sort_field : Bytes
  pub desc : Bool

abbrev pub is_operator : Bytes → Bool
is_operator key = has_prefix (b'$' ∷ []) key

-- strings.Split(path, ".")
abbrev pub path_of : Bytes → List Bytes
path_of path = split b'.' path

-- the booleans' case of compare
abbrev bool_order : Bool → Bool → Order
bool_order x true = if x then same else less
bool_order x false = if x then greater else same

module _ {F : Type 0} where
  -- the constructors Eq, Ne, … by the operator's name, and And, Or
  abbrev pub constraint : Bytes → Bytes → Json F → Fields F
  constraint op name v = field name (obj (field op v end)) end

  abbrev pub branch_list : List (Fields F) → Items F
  branch_list [] = nil
  branch_list (b ∷ bs) = cons (obj b) (branch_list bs)

  abbrev pub and_of : List (Fields F) → Fields F
  and_of branches = field op_and (arr (branch_list branches)) end

  abbrev pub or_of : List (Fields F) → Fields F
  or_of branches = field op_or (arr (branch_list branches)) end

  -- the soft-delete condition, unless the caller constrains the same path
  unfoldable pub active : Fields F → Fields F
  unfolding get put
  active filter =
      if is_some (get deleted_at_path filter) then filter else put deleted_at_path null filter

  abbrev pub has_operator : Fields F → Bool
  has_operator end = false
  has_operator (field key _ m) = is_operator key || has_operator m

  -- operators: an object with a `$` key is one of operators
  unfoldable pub operators : Json F → Option (Fields F)
  unfolding has_prefix
  operators (obj m) = if has_operator m then some m else none
  operators _ = none

  -- list
  unfoldable pub operand_list : Json F → Items F
  operand_list (arr xs) = xs
  operand_list _ = nil

  unfoldable pub is_null : Json F → Bool
  is_null null = true
  is_null _ = false

  module _ (N : Numbers F) where
    -- the order of two values, where they have one
    unfoldable pub compare : Json F → Json F → Option Order
    unfolding str_compare
    compare (num x) (num y) = some (if N.lt x y then less else if N.lt y x then greater else same)
    compare (str x) (str y) = some (str_compare x y)
    compare (bool x) (bool y) = some (bool_order x y)
    compare _ _ = none

    abbrev is_same : Option Order → Bool
    is_same (some same) = true
    is_same _ = false

    -- equal: a comparison with null matches a stored null and an absent key
    unfoldable pub equal : Option (Json F) → Json F → Bool
    unfolding is_null
    equal value operand =
        if is_null operand
        then elim value [ none ↦ true | some v ↦ is_null v ]
        else elim value [ none ↦ false | some v ↦ is_same (compare v operand) ]

    unfoldable pub any_equal : Option (Json F) → Items F → Bool
    any_equal value nil = false
    any_equal value (cons c cs) =
        let rest = any_equal value cs in if equal value c then true else rest

    unfoldable pub none_equal : Option (Json F) → Items F → Bool
    none_equal value nil = true
    none_equal value (cons c cs) =
        let rest = none_equal value cs in if equal value c then false else rest

    -- the inner switch on the order
    abbrev ordered : Bytes → Option Order → Bool
    ordered op none = false
    ordered op (some less) = str_eq op op_lt || str_eq op op_lte
    ordered op (some same) = str_eq op op_gte || str_eq op op_lte
    ordered op (some greater) = str_eq op op_gt || str_eq op op_gte

    abbrev is_true : Json F → Bool
    is_true (bool b) = b
    is_true _ = false

    unfoldable pub operator : Option (Json F) → Bytes → Json F → Bool
    unfolding str_eq
    operator value op operand =
        if str_eq op op_eq
        then equal value operand
        else if str_eq op op_ne
        then not (equal value operand)
        else if str_eq op op_in
        then any_equal value (operand_list operand)
        else if str_eq op op_nin
        then none_equal value (operand_list operand)
        else if str_eq op op_gt || str_eq op op_gte || str_eq op op_lt || str_eq op op_lte
        then elim value [ none ↦ false | some v ↦ ordered op (compare v operand) ]
        else if str_eq op op_exists
        then (if is_some value then is_true operand else not (is_true operand))
        else false

    unfoldable pub all_operators : Option (Json F) → Fields F → Bool
    all_operators value end = true
    all_operators value (field op operand m) = operator value op operand && all_operators value m

    unfoldable pub field_matches : Fields F → Bytes → Json F → Bool
    field_matches doc path condition =
        let value = get_path (path_of path) (obj doc) in
        elim (operators condition) [
          | none ↦ equal value condition
          | some ops ↦ all_operators value ops
        ]

    unfoldable mutual
      -- matches, over the entries of the filter
      pub matches : Fields F → Fields F → Bool
      matches doc end = true
      matches doc (field key condition m) = entry_matches doc key condition && matches doc m

      -- one entry of the loop
      pub entry_matches : Fields F → Bytes → Json F → Bool
      entry_matches doc key (arr xs) =
          if str_eq key op_and
          then every_branch doc xs
          else if str_eq key op_or
          then some_branch doc xs
          else if is_operator key
          then false
          else field_matches doc key (arr xs)
      entry_matches doc key condition =
          if str_eq key op_and
          then true
          else if str_eq key op_or
          then false
          else if is_operator key
          then false
          else field_matches doc key condition

      -- the branches are the array's objects; other elements are dropped
      pub every_branch : Fields F → Items F → Bool
      every_branch doc nil = true
      every_branch doc (cons b bs) = branch_or true doc b && every_branch doc bs

      pub some_branch : Fields F → Items F → Bool
      some_branch doc nil = false
      some_branch doc (cons b bs) = branch_or false doc b || some_branch doc bs

      -- a branch's value, or the given one for an element that is dropped
      pub branch_or : Bool → Fields F → Json F → Bool
      branch_or absent doc (obj m) = matches doc m
      branch_or absent doc _ = absent
