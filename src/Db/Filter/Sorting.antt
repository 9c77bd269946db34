-- ===== src/Db/Filter/Sorting.antt =====
-- less of db/memdb/filter.go, and the stable sort that it drives.
use howl_go.Prelude.{
  ◌≡◌, refl, Bool, true, false, not, Option, none, some, List, [], ◌∷◌, Bytes, if◌then◌else◌, arith,
}
use howl_go.Db.Value.{
  Json, null, bool, num, str, obj, Fields, Numbers, get_path, Order, less, same, greater,
  str_compare,
}
use howl_go.Db.Filter.{SortKey, path_of, compare}

module _ {F : Type 0} (N : Numbers F) where
  -- a stored null counts as missing
  abbrev present : Option (Json F) → Option (Json F)
  present none = none
  present (some null) = none
  present (some v) = some v

  -- one key of the loop: `later` is the rest of it
  unfoldable pub by_key : Option (Json F) → Option (Json F) → Bool → Bool → Bool
  by_key none none desc later = later
  by_key (some x) none desc later = not desc
  by_key none (some y) desc later = desc
  by_key (some x) (some y) desc later = elim (compare N x y) [
    | none ↦ later
    | some less ↦ not desc
    | some same ↦ later
    | some greater ↦ desc
  ]

  unfoldable pub is_less : Fields F → Fields F → List SortKey → Bool
  is_less a b [] = false
  is_less a b (k ∷ ks) =
      by_key (present (get_path (path_of k.sort_field) (obj a)))
        (present (get_path (path_of k.sort_field) (obj b))) k.desc (is_less a b ks)

  unfoldable pub insert_stable : List SortKey → Fields F → List (Fields F) → List (Fields F)
  unfolding is_less
  insert_stable keys d [] = d ∷ []
  insert_stable keys d (e ∷ es) =
      let rest = insert_stable keys d es in if is_less e d keys then e ∷ rest else d ∷ e ∷ es

  -- sort.SliceStable, for keys under which the documents have a consistent order
  unfoldable pub sort_stable : List SortKey → List (Fields F) → List (Fields F)
  unfolding insert_stable
  sort_stable keys [] = []
  sort_stable keys (d ∷ ds) = insert_stable keys d (sort_stable keys ds)

abbrev flip : Option Order → Option Order
flip none = none
flip (some less) = some greater
flip (some same) = some same
flip (some greater) = some less

str_compare-flip : (s t : Bytes) → some (str_compare t s) ≡ flip (some (str_compare s t))
unfolding str_compare
str_compare-flip [] [] = refl
str_compare-flip [] (_ ∷ _) = refl
str_compare-flip (_ ∷ _) [] = refl
str_compare-flip (a ∷ s) (b ∷ t) = ground (arith, str_compare-flip s t)

module _ {F : Type 0} (N : Numbers F)
    (lt_asym : (x y : F) → N.lt x y ≡ true → N.lt y x ≡ false) where
  compare-flip : (v w : Json F) → compare N w v ≡ flip (compare N v w)
  unfolding compare
  compare-flip (num x) (num y) = ground (arith, lt_asym x y, lt_asym y x)
  compare-flip (str s) (str t) = str_compare-flip s t
  compare-flip (bool x) (bool y) = ground arith
  compare-flip _ _ = ground arith

  by_key-asym :
      (x y : Option (Json F)) (desc later back : Bool)
      → (later ≡ true → back ≡ false)
      → by_key N x y desc later ≡ true
      → by_key N y x desc back ≡ false
  unfolding by_key
  by_key-asym none none desc later back ih h = ih h
  by_key-asym (some x) none desc later back ih h = ground arith
  by_key-asym none (some y) desc later back ih h = ground arith
  by_key-asym (some x) (some y) desc later back ih h = ground (arith, compare-flip x y)

  -- Where the order of numbers is asymmetric, so is that of two documents, for every list of sort
  -- keys: with a missing value, a null or values of different kinds too.
  pub is_less-asym :
      (a b : Fields F) (keys : List SortKey)
      → is_less N a b keys ≡ true
      → is_less N b a keys ≡ false
  unfolding is_less
  is_less-asym a b [] h = refl
  is_less-asym a b (k ∷ ks) h =
      by_key-asym _ _ k.desc (is_less N a b ks) (is_less N b a ks) (is_less-asym a b ks) h
