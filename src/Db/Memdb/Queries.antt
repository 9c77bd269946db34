-- ===== src/Db/Memdb/Queries.antt =====
-- FindOne, FindMany and Count of db/memdb/memdb.go.
use howl_go.Prelude.{
  ℕ, suc, ◌+◌, ◌≤◌, ◌<◌, ◌≡◌, refl, sym, ap, ◌∙◌, ◌≢◌, false, List, [], ◌∷◌, ◌++◌, Bytes, str_eq,
  str_eq_iff, str_eq_refl, lookup, length, All, arith, Bool-cases, inl, inr,
}
use howl_go.Db.Value.{Fields, Numbers}
use howl_go.Db.Filter.{SortKey, matches}
use howl_go.Db.Memdb.{
  Reply, ok, not_found, Docs, keys, insert_id, sort_ids, sorted_ids, doc_at, comes_before,
  find_first, find_one, find_hits, find_many, count, drop_docs,
}
use howl_go.Db.Memdb.Paging.{
  arranged, length-arranged, page-unlimited, page-limited, take-drop, length-take, drop-add,
}

-- The ids of the map are pairwise different.
abbrev pub Unique : {F : Type 0} → Docs F → Type 0
Unique [] = Unit
Unique ((id, _) ∷ docs) = All (λ j. id ≢ j) (keys docs) × Unique docs

module _ {F : Type 0} (id : Bytes) (d : Fields F) (docs : Docs F) where
  doc_at_self : doc_at ((id, d) ∷ docs) id ≡ d
  unfolding doc_at lookup
  doc_at_self = rw (str_eq_refl id) refl

  doc_at-ne : (j : Bytes) → id ≢ j → doc_at ((id, d) ∷ docs) j ≡ doc_at docs j
  unfolding doc_at lookup
  doc_at-ne j h = let other : str_eq id j ≡ false = ground (arith, str_eq_iff id j) in rw other refl

module _ {F : Type 0} (N : Numbers F) (filter : Fields F) where
  hits-cons :
      (id : Bytes) (ids js : List Bytes) (docs : Docs F)
      → length (find_hits N ids filter docs) ≡ length (find_hits N js filter docs)
      → length (find_hits N (id ∷ ids) filter docs) ≡ length (find_hits N (id ∷ js) filter docs)
  unfolding find_hits
  hits-cons id ids js docs h = elim (Bool-cases (matches N (doc_at docs id) filter)) [
    | inl hit ↦ rw hit (ap suc h)
    | inr miss ↦ rw miss h
  ]

  hits_swap :
      (i j : Bytes) (ids : List Bytes) (docs : Docs F)
      → length (find_hits N (i ∷ j ∷ ids) filter docs)
        ≡ length (find_hits N (j ∷ i ∷ ids) filter docs)
  unfolding find_hits
  hits_swap i j ids docs = elim (Bool-cases (matches N (doc_at docs i) filter)) [
    | inl hit ↦ elim (Bool-cases (matches N (doc_at docs j) filter)) [
      | inl also ↦ rw (hit, also) refl
      | inr miss ↦ rw (hit, miss) refl
    ]
    | inr skip ↦ elim (Bool-cases (matches N (doc_at docs j) filter)) [
      | inl also ↦ rw (skip, also) refl
      | inr miss ↦ rw (skip, miss) refl
    ]
  ]

  hits_insert_id :
      (id : Bytes) (ids : List Bytes) (docs : Docs F)
      → length (find_hits N (insert_id id ids) filter docs)
        ≡ length (find_hits N (id ∷ ids) filter docs)
  unfolding insert_id
  hits_insert_id id [] docs = refl
  hits_insert_id id (j ∷ ids) docs = elim (Bool-cases (comes_before id j)) [
    | inl first ↦ rw first refl
    | inr later ↦ rw later (
        hits-cons j (insert_id id ids) (id ∷ ids) docs (hits_insert_id id ids docs)
        ∙ hits_swap j id ids docs)
  ]

  hits_sort_ids :
      (ids : List Bytes) (docs : Docs F)
      → length (find_hits N (sort_ids ids) filter docs) ≡ length (find_hits N ids filter docs)
  unfolding sort_ids
  hits_sort_ids [] docs = refl
  hits_sort_ids (id ∷ ids) docs =
      hits_insert_id id (sort_ids ids) docs
      ∙ hits-cons id (sort_ids ids) ids docs (hits_sort_ids ids docs)

  hits-skip :
      (id : Bytes) (d : Fields F) (ids : List Bytes) (docs : Docs F)
      → All (λ j. id ≢ j) ids
      → find_hits N ids filter ((id, d) ∷ docs) ≡ find_hits N ids filter docs
  unfolding find_hits
  hits-skip id d [] docs h = refl
  hits-skip id d (j ∷ ids) docs h = rw (doc_at-ne id d docs j h.0, hits-skip id d ids docs h.1) refl

  hits-keys :
      (docs : Docs F)
      → Unique docs
      → length (find_hits N (keys docs) filter docs) ≡ count N filter docs
  unfolding find_hits count
  hits-keys [] u = refl
  hits-keys ((id, d) ∷ docs) u =
      rw (doc_at_self id d docs, hits-skip id d (keys docs) docs u.0)
        (elim (Bool-cases (matches N d filter)) [
          | inl hit ↦ rw hit (omega (arith, hits-keys docs u.1))
          | inr miss ↦ rw miss (hits-keys docs u.1)
        ])

module _ {F : Type 0} (N : Numbers F) where
  -- Over documents with different ids, FindMany without a limit or a skip answers with as many
  -- documents as Count counts, however they are sorted.
  pub length-find_many :
      (filter : Fields F) (ks : List SortKey) (docs : Docs F)
      → Unique docs
      → length (find_many N filter (record { sort = ks; limit = 0; skip = 0 }) docs)
        ≡ count N filter docs
  unfolding find_many sorted_ids
  length-find_many filter ks docs u =
      ap length (page-unlimited N (find_hits N (sort_ids (keys docs)) filter docs) ks 0)
      ∙ length-arranged N ks (find_hits N (sort_ids (keys docs)) filter docs)
      ∙ hits_sort_ids N filter (keys docs) docs
      ∙ hits-keys N filter docs u

  -- A page with a limit above zero, and what FindMany gives after it, are together what it gives from
  -- the page's start on: paging loses no document and repeats none. A page is at most as long as its
  -- limit.
  pub find_many-pages :
      (filter : Fields F) (ks : List SortKey) (n m : ℕ) (docs : Docs F)
      → 0 < m
      → (find_many N filter (record { sort = ks; limit = m; skip = n }) docs
            ++ find_many N filter (record { sort = ks; limit = 0; skip = n + m }) docs
          ≡ find_many N filter (record { sort = ks; limit = 0; skip = n }) docs)
        × (length (find_many N filter (record { sort = ks; limit = m; skip = n }) docs) ≤ m)
  unfolding find_many
  find_many-pages filter ks n m docs h =
      let hits = find_hits N (sorted_ids docs) filter docs in
      let rest = drop_docs n (arranged N ks hits) in
      (
        rw
            (
              page-limited N hits ks n m h,
              page-unlimited N hits ks (n + m),
              page-unlimited N hits ks n,
              drop-add N n m (n + m) (arranged N ks hits) refl,
            )
            (take-drop N m rest),
        rw (page-limited N hits ks n m h) (length-take N m rest),
      )

  abbrev pub first_of_hits : List (Fields F) → Reply (Fields F)
  first_of_hits [] = not_found
  first_of_hits (d ∷ ds) = ok d

  find_first-hits :
      (ids : List Bytes) (filter : Fields F) (docs : Docs F)
      → find_first N ids filter docs ≡ first_of_hits (find_hits N ids filter docs)
  unfolding find_first find_hits
  find_first-hits [] filter docs = refl
  find_first-hits (id ∷ ids) filter docs = elim (Bool-cases (matches N (doc_at docs id) filter)) [
    | inl hit ↦ rw hit refl
    | inr miss ↦ rw miss (find_first-hits ids filter docs)
  ]

  -- FindOne answers with the first document that an unsorted FindMany gives, and with not found where
  -- there is none.
  pub find_one-find_many :
      (filter : Fields F) (docs : Docs F)
      → find_one N filter docs
        ≡ first_of_hits (find_many N filter (record { sort = []; limit = 0; skip = 0 }) docs)
  unfolding find_one find_many
  find_one-find_many filter docs =
      find_first-hits (sorted_ids docs) filter docs
      ∙ ap first_of_hits (sym (page-unlimited N (find_hits N (sorted_ids docs) filter docs) [] 0))
