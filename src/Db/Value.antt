-- ===== src/Db/Value.antt =====
-- Decoded JSON documents, as db/memdb and db/json.go hold them in `any` and `map[string]any`.
-- The float64 numbers are a parameter, with the operations that the store uses.
use howl_go.Prelude.{
  ℕ, ◌≡◌, refl, Bool, Option, none, some, List, [], ◌∷◌, Bytes, str_eq, str_eq_iff, ltb,
  if◌then◌else◌, arith,
}

mutual
  pub data Json (F : Type 0) : Type 0 where
    null : Json F
    bool : Bool → Json F
    num : F → Json F
    str : Bytes → Json F
    arr : Items F → Json F
    obj : Fields F → Json F

  pub data Items (F : Type 0) : Type 0 where
    nil : Items F
    cons : Json F → Items F → Items F

  pub data Fields (F : Type 0) : Type 0 where
    end : Fields F
    field : Bytes → Json F → Fields F → Fields F

-- Go's float64 as the store uses it: `<`, `== 0` for a missing version, `+ 1`, and the conversion to
-- int64, given by its bit pattern.
pub record Numbers (F : Type 0) : Type 0 where
  pub lt : F → F → Bool
  pub zero_value : F
  pub plus_one : F → F
  pub int64 : F → ℕ

module _ {F : Type 0} where
  -- v, ok := m[k]
  unfoldable pub get : Bytes → Fields F → Option (Json F)
  get k end = none
  get k (field j v m) = if str_eq j k then some v else get k m

  -- m[k] = v
  unfoldable pub put : Bytes → Json F → Fields F → Fields F
  put k v end = field k v end
  put k v (field j w m) = if str_eq j k then field k v m else field j w (put k v m)

  -- delete(m, k)
  unfoldable pub remove : Bytes → Fields F → Fields F
  remove k end = end
  remove k (field j v m) = let rest = remove k m in if str_eq j k then rest else field j v rest

  pub get-put :
      (k j : Bytes) (v : Json F) (m : Fields F)
      → get j (put k v m) ≡ (if str_eq k j then some v else get j m)
  unfolding get put
  get-put k j v end = refl
  get-put k j v (field i w m) =
      ground (arith, str_eq_iff k j, str_eq_iff i k, str_eq_iff i j, get-put k j v m)

  pub get-remove :
      (k j : Bytes) (m : Fields F) → get j (remove k m) ≡ (if str_eq k j then none else get j m)
  unfolding get remove
  get-remove k j end = ground arith
  get-remove k j (field i w m) =
      ground (arith, get-remove k j m, str_eq_iff k j, str_eq_iff i k, str_eq_iff i j)

  -- lookup of db/memdb/filter.go, on the segments of the path
  unfoldable pub get_path : List Bytes → Json F → Option (Json F)
  get_path [] node = some node
  get_path (seg ∷ segs) (obj m) = elim (get seg m) [ none ↦ none | some v ↦ get_path segs v ]
  get_path (seg ∷ segs) _ = none

-- strings.Compare
pub data Order : Type 0 where
  less same greater : Order

unfoldable pub str_compare : Bytes → Bytes → Order
str_compare [] [] = same
str_compare [] (_ ∷ _) = less
str_compare (_ ∷ _) [] = greater
str_compare (a ∷ s) (b ∷ t) =
    let rest = str_compare s t in if ltb a b then less else if ltb b a then greater else rest
