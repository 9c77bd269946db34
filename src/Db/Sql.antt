-- ===== src/Db/Sql.antt =====
-- What the compilers of db/sqlite/compile.go and db/pg/compile.go share: an action appends to the
-- parameters of the compiler and gives a text, or refuses the filter. sortedKeys walks a map in the
-- order of its keys, so an entry is the action that compiles it, and the actions are sorted.
pub mod Actions
pub mod Marks
pub mod Texts
pub mod Compile
pub mod Replace
use howl_go.Prelude.{
  ℕ, ◌++◌, Bool, true, false, ◌&&◌, ◌||◌, List, [], ◌∷◌, Bytes, codes, join, Dict, all, leb, ◌==◌,
  if◌then◌else◌,
}
use howl_go.Db.Value.{
  Json, bool, arr, obj, Items, nil, cons, Fields, end, Order, greater, str_compare,
}

pub data Refusal : Type 0 where
  invalid_identifier unsupported_operator unsupported_key not_a_list not_a_scalar not_a_filter :
      Refusal

pub data Outcome {ℓ} (A : Type ℓ) : Type ℓ where
  ok : A → Outcome A
  refused : Refusal → Outcome A

-- `params` of the compiler, in the order of the appends, is the state.
abbrev pub Action : Type 0 → Type 0 → Type 0
Action P A = List P → Outcome (A × List P)

abbrev pub and_then :
    {P A B : Type 0} → Outcome (A × List P) → (A → Action P B) → Outcome (B × List P)
and_then (ok (a, ps)) f = f a ps
and_then (refused e) f = refused e

infixl 5 ◌>>=◌
abbrev pub ◌>>=◌ : {P A B : Type 0} → Action P A → (A → Action P B) → Action P B
◌>>=◌ m f ps = and_then (m ps) f

abbrev pub give : {P A : Type 0} → A → Action P A
give a ps = ok (a, ps)

abbrev pub refuse : {P A : Type 0} → Refusal → Action P A
refuse e ps = refused e

-- a step that binds no parameter
abbrev pub lift : {P A : Type 0} → Outcome A → Action P A
lift (ok a) = give a
lift (refused e) = refuse e

-- strings.Join(parts, separator)
unfoldable pub join_with : Bytes → List Bytes → Bytes
join_with separator [] = []
join_with separator (w ∷ []) = w
join_with separator (w ∷ v ∷ ws) = w ++ (separator ++ join_with separator (v ∷ ws))

abbrev pub in_parens : Bytes → Bytes
in_parens text = b'(' ∷ (text ++ b')' ∷ [])

-- the identifier `^[A-Za-z_][A-Za-z0-9_]*$`
abbrev pub is_letter : ℕ → Bool
is_letter c = (leb b'a' c && leb c b'z') || (leb b'A' c && leb c b'Z') || c == b'_'

abbrev pub is_word : ℕ → Bool
is_word c = is_letter c || (leb b'0' c && leb c b'9')

unfoldable pub is_identifier : Bytes → Bool
is_identifier [] = false
is_identifier (c ∷ s) = is_letter c && all is_word s

unfoldable pub insert_key : {A : Type 0} → Bytes → A → Dict A → Dict A
insert_key k a [] = (k, a) ∷ []
insert_key k a ((j, b) ∷ m) = elim (str_compare k j) [
  | greater ↦ (j, b) ∷ insert_key k a m
  | _ ↦ (k, a) ∷ (j, b) ∷ m
]

-- sortedKeys, with the value of each key
unfoldable pub sort_keys : {A : Type 0} → Dict A → Dict A
unfolding insert_key
sort_keys [] = []
sort_keys ((k, a) ∷ m) = insert_key k a (sort_keys m)

-- the loop over sorted entries, collecting the parts
unfoldable pub run_all : {P : Type 0} → Dict (Action P Bytes) → Action P (List Bytes)
run_all [] = give []
run_all ((k, action) ∷ m) = do part ← action; parts ← run_all m; give (part ∷ parts)

module _ {F : Type 0} where
  abbrev pub is_end : Fields F → Bool
  is_end end = true
  is_end _ = false

  -- want, _ := operand.(bool)
  abbrev pub is_true : Json F → Bool
  is_true (bool b) = b
  is_true _ = false

  -- operand.([]any)
  unfoldable pub list_of : Json F → Outcome (Items F)
  list_of (arr xs) = ok xs
  list_of _ = refused not_a_list

  -- every branch of branchList is a filter
  unfoldable pub all_filters : Items F → Bool
  all_filters nil = true
  all_filters (cons (obj _) xs) = all_filters xs
  all_filters (cons _ xs) = false
