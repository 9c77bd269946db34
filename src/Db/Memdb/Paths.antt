-- ===== src/Db/Memdb/Paths.antt =====
-- The deep set and unset of db/memdb/memdb.go, read back by its lookup.
use howl_go.Prelude.{
  ◌≡◌, refl, sym, ap, ◌∙◌, ◌≢◌, ◌⊎◌, inl, inr, Option, none, some, List, [], ◌∷◌, Bytes, str_eq_iff,
  str_eq_refl, arith,
}
use howl_go.Db.Value.{Json, obj, Fields, get, put, remove, get_path, get-put, get-remove}
use howl_go.Db.Memdb.{set_path, unset_path, child, put_child}

-- The two paths part at some segment before either ends.
abbrev pub Diverge : List Bytes → List Bytes → Type 0
Diverge [] _ = ⊥
Diverge (_ ∷ _) [] = ⊥
Diverge (a ∷ p) (b ∷ q) = (a ≢ b) ⊎ ((a ≡ b) × Diverge p q)

module _ {F : Type 0} where
  abbrev follow : List Bytes → Option (Json F) → Option (Json F)
  follow segs none = none
  follow segs (some v) = get_path segs v

  get_path-cons :
      (seg : Bytes) (segs : List Bytes) (m : Fields F)
      → get_path (seg ∷ segs) (obj m) ≡ follow segs (get seg m)
  unfolding get_path
  get_path-cons seg segs m = ground arith

  get-put_self : (seg : Bytes) (v : Json F) (m : Fields F) → get seg (put seg v m) ≡ some v
  get-put_self seg v m = get-put seg seg v m ∙ rw (str_eq_refl seg) refl

  get-put_ne :
      (seg other : Bytes) (v : Json F) (m : Fields F)
      → seg ≢ other
      → get other (put seg v m) ≡ get other m
  get-put_ne seg other v m h = ground (arith, get-put seg other v m, str_eq_iff seg other)

  -- What is set at a path of one or more segments is found there.
  pub get_path-set_path :
      (seg : Bytes) (segs : List Bytes) (v : Json F) (m : Fields F)
      → get_path (seg ∷ segs) (obj (set_path (seg ∷ segs) v m)) ≡ some v
  unfolding set_path
  get_path-set_path seg [] v m =
      get_path-cons seg [] (put seg v m) ∙ ap (follow []) (get-put_self seg v m) ∙ found
    where
      found : follow [] (some v) ≡ some v
      found = unfold get_path in refl
  get_path-set_path seg (next ∷ segs) v m =
      get_path-cons seg (next ∷ segs) _
      ∙ ap (follow (next ∷ segs)) (get-put_self seg _ m)
      ∙ get_path-set_path next segs v (child (get seg m))

  follow-child :
      (segs : List Bytes) (next : Bytes) (o : Option (Json F))
      → follow (next ∷ segs) (some (obj (child o))) ≡ follow (next ∷ segs) o
  unfolding get_path get
  follow-child segs next none = refl
  follow-child segs next (some (obj m)) = refl
  follow-child segs next (some _) = refl

  -- After a path is set, a path that parts from it before either ends holds what it held.
  pub get_path-set_path_ne :
      (p q : List Bytes) (v : Json F) (m : Fields F)
      → Diverge p q
      → get_path q (obj (set_path p v m)) ≡ get_path q (obj m)
  unfolding set_path
  get_path-set_path_ne [] q v m d = absurd d
  get_path-set_path_ne (a ∷ p) [] v m d = absurd d
  get_path-set_path_ne (a ∷ []) (b ∷ q) v m (inl ne) =
      get_path-cons b q (put a v m)
      ∙ ap (follow q) (get-put_ne a b v m ne)
      ∙ sym (get_path-cons b q m)
  get_path-set_path_ne (a ∷ []) (b ∷ q) v m (inr d) = absurd d.1
  get_path-set_path_ne (a ∷ c ∷ p) (b ∷ q) v m (inl ne) =
      get_path-cons b q (put a (obj (set_path (c ∷ p) v (child (get a m)))) m)
      ∙ ap (follow q) (get-put_ne a b (obj (set_path (c ∷ p) v (child (get a m)))) m ne)
      ∙ sym (get_path-cons b q m)
  get_path-set_path_ne (a ∷ c ∷ p) (b ∷ []) v m (inr d) = absurd d.1
  get_path-set_path_ne (a ∷ c ∷ p) (b ∷ e ∷ q) v m (inr d) =
      let inner : Fields F = set_path (c ∷ p) v (child (get a m)) in
      get_path-cons b (e ∷ q) (put a (obj inner) m)
      ∙ ap (follow (e ∷ q))
          (ap (λ k. get k (put a (obj inner) m)) (sym d.0) ∙ get-put_self a (obj inner) m)
      ∙ get_path-set_path_ne (c ∷ p) (e ∷ q) v (child (get a m)) d.1
      ∙ follow-child q e (get a m)
      ∙ ap (λ k. follow (e ∷ q) (get k m)) d.0
      ∙ sym (get_path-cons b (e ∷ q) m)

  get-remove_self : (seg : Bytes) (m : Fields F) → get seg (remove seg m) ≡ none
  get-remove_self seg m = get-remove seg seg m ∙ rw (str_eq_refl seg) refl

  follow-put_child :
      (seg next : Bytes) (segs : List Bytes) (o : Option (Json F)) (change : Fields F → Fields F)
      (m : Fields F)
      → get seg m ≡ o
      → ((c : Fields F) → get_path (next ∷ segs) (obj (change c)) ≡ none)
      → follow (next ∷ segs) (get seg (put_child seg o change m)) ≡ none
  unfolding get_path
  follow-put_child seg next segs none change m e h = ap (follow (next ∷ segs)) e
  follow-put_child seg next segs (some (obj c)) change m e h =
      ap (follow (next ∷ segs)) (get-put_self seg (obj (change c)) m) ∙ h c
  follow-put_child seg next segs (some _) change m e h = ap (follow (next ∷ segs)) e

  -- Nothing is found at a path of one or more segments after it is unset.
  pub get_path-unset_path :
      (seg : Bytes) (segs : List Bytes) (m : Fields F)
      → get_path (seg ∷ segs) (obj (unset_path (seg ∷ segs) m)) ≡ none
  unfolding unset_path
  get_path-unset_path seg [] m =
      get_path-cons seg [] (remove seg m) ∙ ap (follow []) (get-remove_self seg m)
  get_path-unset_path seg (next ∷ segs) m =
      get_path-cons seg (next ∷ segs) _
      ∙ follow-put_child seg next segs (get seg m) (unset_path (next ∷ segs)) m refl
          (λ c. get_path-unset_path next segs c)
