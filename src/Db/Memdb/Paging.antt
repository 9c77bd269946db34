-- ===== src/Db/Memdb/Paging.antt =====
-- How FindMany of db/memdb/memdb.go cuts a page.
use howl_go.Prelude.{
  ℕ, zero, suc, ◌+◌, ◌≤◌, ◌<◌, ◌≡◌, refl, sym, ap, ◌∙◌, ◌&&◌, List, [], ◌∷◌, ◌++◌, ltb, leb,
  if◌then◌else◌, length, is_nil, arith, Bool-cases, inl, inr,
}
use howl_go.Db.Value.{Fields, Numbers}
use howl_go.Db.Filter.{SortKey}
use howl_go.Db.Filter.Sorting.{sort_stable, insert_stable, is_less}
use howl_go.Db.Memdb.{page, take_docs, drop_docs}

module _ {F : Type 0} (N : Numbers F) where
  length-insert_stable :
      (ks : List SortKey) (d : Fields F) (ds : List (Fields F))
      → length (insert_stable N ks d ds) ≡ suc (length ds)
  unfolding insert_stable
  length-insert_stable ks d [] = refl
  length-insert_stable ks d (e ∷ ds) = elim (Bool-cases (is_less N e d ks)) [
    | inl after ↦ rw after (ap suc (length-insert_stable ks d ds))
    | inr here ↦ rw here refl
  ]

  pub length-sort_stable :
      (ks : List SortKey) (ds : List (Fields F)) → length (sort_stable N ks ds) ≡ length ds
  unfolding sort_stable
  length-sort_stable ks [] = refl
  length-sort_stable ks (d ∷ ds) =
      length-insert_stable ks d (sort_stable N ks ds) ∙ ap suc (length-sort_stable ks ds)

  drop-all : (n : ℕ) (ds : List (Fields F)) → length ds ≤ n → drop_docs n ds ≡ []
  drop-all zero [] h = refl
  drop-all zero (d ∷ ds) h = absurd (omega arith)
  drop-all (suc n) [] h = refl
  drop-all (suc n) (d ∷ ds) h = drop-all n ds (omega arith)

  take-all : (n : ℕ) (ds : List (Fields F)) → length ds ≤ n → take_docs n ds ≡ ds
  take-all zero [] h = refl
  take-all zero (d ∷ ds) h = absurd (omega arith)
  take-all (suc n) [] h = refl
  take-all (suc n) (d ∷ ds) h = ap (λ l. d ∷ l) (take-all n ds (omega arith))

  pub take-drop : (n : ℕ) (ds : List (Fields F)) → take_docs n ds ++ drop_docs n ds ≡ ds
  take-drop zero ds = refl
  take-drop (suc n) [] = refl
  take-drop (suc n) (d ∷ ds) = ap (λ l. d ∷ l) (take-drop n ds)

  pub length-take : (n : ℕ) (ds : List (Fields F)) → length (take_docs n ds) ≤ n
  length-take zero ds = omega arith
  length-take (suc n) [] = omega arith
  length-take (suc n) (d ∷ ds) = omega (arith, length-take n ds)

  drop-nil : (n : ℕ) → drop_docs {F = F} n [] ≡ []
  drop-nil zero = refl
  drop-nil (suc n) = refl

  pub drop-add :
      (n m k : ℕ) (ds : List (Fields F)) → n + m ≡ k → drop_docs k ds ≡ drop_docs m (drop_docs n ds)
  drop-add zero m k ds e = ap (λ i. drop_docs i ds) (omega arith)
  drop-add (suc n) m zero ds e = absurd (omega arith)
  drop-add (suc n) m (suc k) [] e = sym (drop-nil m)
  drop-add (suc n) m (suc k) (d ∷ ds) e = drop-add n m k ds (omega arith)

  abbrev pub arranged : List SortKey → List (Fields F) → List (Fields F)
  arranged ks hits = if is_nil ks then hits else sort_stable N ks hits

  pub length-arranged :
      (ks : List SortKey) (hits : List (Fields F)) → length (arranged ks hits) ≡ length hits
  length-arranged [] hits = refl
  length-arranged (k ∷ ks) hits = length-sort_stable (k ∷ ks) hits

  skipped :
      (n : ℕ) (ds : List (Fields F))
      → (if ltb 0 n && leb (length ds) n then [] else drop_docs n ds) ≡ drop_docs n ds
  skipped n ds = elim (Bool-cases (ltb 0 n && leb (length ds) n)) [
    | inl past ↦ rw past (sym (drop-all n ds (ground arith)))
    | inr within ↦ rw within refl
  ]

  pub page-unlimited :
      (hits : List (Fields F)) (ks : List SortKey) (n : ℕ)
      → page N hits (record { sort = ks; limit = 0; skip = n }) ≡ drop_docs n (arranged ks hits)
  unfolding page
  page-unlimited hits ks n = skipped n (arranged ks hits)

  pub page-limited :
      (hits : List (Fields F)) (ks : List SortKey) (n m : ℕ)
      → 0 < m
      → page N hits (record { sort = ks; limit = m; skip = n })
        ≡ take_docs m (drop_docs n (arranged ks hits))
  unfolding page
  page-limited hits ks n m h =
      rw (skipped n (arranged ks hits))
        (elim (Bool-cases (ltb 0 m && ltb m (length (drop_docs n (arranged ks hits))))) [
          | inl long ↦ rw long refl
          | inr short ↦ rw short (sym (take-all m _ (ground arith)))
        ])
