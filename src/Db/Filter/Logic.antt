-- ===== src/Db/Filter/Logic.antt =====
-- The filter grammar of db/memdb/filter.go as logic.
use howl_go.Prelude.{
  ◌≡◌, refl, ap, Bool, true, false, not, ◌&&◌, ◌||◌, Option, none, some, List, [], ◌∷◌, Bytes,
  str_eq, all, arith,
}
use howl_go.Db.Value.{
  Json, null, arr, obj, Items, nil, cons, Fields, end, field, Numbers, get_path, Order, less, same,
  greater,
}
use howl_go.Db.Filter.{
  op_eq, op_ne, op_in, op_nin, op_gt, op_gte, op_lt, op_lte, op_and, op_or, branch_list, and_of,
  or_of, path_of, operators, operand_list, compare, equal, any_equal, none_equal, operator,
  field_matches, matches, entry_matches, every_branch, some_branch,
}

module _ {F : Type 0} where
  -- the entries of two filters in one
  abbrev pub merge : Fields F → Fields F → Fields F
  merge end n = n
  merge (field k v m) n = field k v (merge m n)

  abbrev pub any : (Fields F → Bool) → List (Fields F) → Bool
  any p [] = false
  any p (b ∷ bs) = p b || any p bs

  module _ (N : Numbers F) where
    pub matches-end : (doc : Fields F) → matches N doc end ≡ true
    unfolding matches
    matches-end doc = refl

    pub matches-field :
        (doc : Fields F) (k : Bytes) (v : Json F) (m : Fields F)
        → matches N doc (field k v m) ≡ (entry_matches N doc k v && matches N doc m)
    unfolding matches
    matches-field doc k v m = refl

    matches-merge :
        (doc m n : Fields F) → matches N doc (merge m n) ≡ (matches N doc m && matches N doc n)
    matches-merge doc end n = rw matches-end refl
    matches-merge doc (field k v m) n =
        ground
          (arith, matches-field doc k v (merge m n), matches-field doc k v m, matches-merge doc m n)

    -- A filter is the conjunction of its entries, in whatever order the map gives them.
    pub matches-merge_comm :
        (doc m n : Fields F)
        → (matches N doc (merge m n) ≡ (matches N doc m && matches N doc n))
          × (matches N doc (merge m n) ≡ matches N doc (merge n m))
    matches-merge_comm doc m n =
        (matches-merge doc m n, ground (arith, matches-merge doc m n, matches-merge doc n m))

    every_branch-all :
        (doc : Fields F) (bs : List (Fields F))
        → every_branch N doc (branch_list bs) ≡ all (matches N doc) bs
    unfolding every_branch
    every_branch-all doc [] = refl
    every_branch-all doc (b ∷ bs) = ap (λ r. matches N doc b && r) (every_branch-all doc bs)

    some_branch-any :
        (doc : Fields F) (bs : List (Fields F))
        → some_branch N doc (branch_list bs) ≡ any (matches N doc) bs
    unfolding some_branch
    some_branch-any doc [] = refl
    some_branch-any doc (b ∷ bs) = ap (λ r. matches N doc b || r) (some_branch-any doc bs)

    entry_matches-and :
        (doc : Fields F) (xs : Items F)
        → entry_matches N doc op_and (arr xs) ≡ every_branch N doc xs
    unfolding entry_matches str_eq
    entry_matches-and doc xs = refl

    entry_matches-or :
        (doc : Fields F) (xs : Items F) → entry_matches N doc op_or (arr xs) ≡ some_branch N doc xs
    unfolding entry_matches str_eq
    entry_matches-or doc xs = refl

    -- And of some filters holds where each holds, Or where at least one does; an empty Or never.
    pub matches-branches :
        (doc : Fields F) (bs : List (Fields F))
        → (matches N doc (and_of bs) ≡ all (matches N doc) bs)
          × (matches N doc (or_of bs) ≡ any (matches N doc) bs)
    matches-branches doc bs = (
      ground (
        arith,
        matches-field doc op_and (arr (branch_list bs)) end,
        matches-end doc,
        entry_matches-and doc (branch_list bs),
        every_branch-all doc bs,
      ),
      ground (
        arith,
        matches-field doc op_or (arr (branch_list bs)) end,
        matches-end doc,
        entry_matches-or doc (branch_list bs),
        some_branch-any doc bs,
      ),
    )

    none_equal-not :
        (v : Option (Json F)) (xs : Items F) → none_equal N v xs ≡ not (any_equal N v xs)
    unfolding none_equal any_equal
    none_equal-not v nil = refl
    none_equal-not v (cons c cs) = ground (arith, none_equal-not v cs)

    -- $ne and $nin are the negations of $eq and $in, for an absent field too.
    pub operator-negations :
        (v : Option (Json F)) (x : Json F)
        → (operator N v op_ne x ≡ not (operator N v op_eq x))
          × (operator N v op_nin x ≡ not (operator N v op_in x))
    operator-negations v x =
        (unfold operator in refl, unfold operator in none_equal-not v (operand_list x))

    compare-null : (v : Json F) → compare N v null ≡ none
    unfolding compare
    compare-null null = refl
    compare-null _ = refl

    compare-obj : (v : Json F) (m : Fields F) → compare N v (obj m) ≡ none
    unfolding compare
    compare-obj null m = refl
    compare-obj _ m = refl

    compare-arr : (v : Json F) (xs : Items F) → compare N v (arr xs) ≡ none
    unfolding compare
    compare-arr null xs = refl
    compare-arr _ xs = refl

    equal-obj : (o : Option (Json F)) (m : Fields F) → equal N o (obj m) ≡ false
    unfolding equal
    equal-obj none m = refl
    equal-obj (some v) m = rw compare-obj refl

    equal-arr : (o : Option (Json F)) (xs : Items F) → equal N o (arr xs) ≡ false
    unfolding equal
    equal-arr none xs = refl
    equal-arr (some v) xs = rw compare-arr refl

    -- Of a value and an operand that have an order, $gte is the negation of $lt and $lte of $gt; both
    -- of $gte and $lte hold exactly where the order is that of equal values.
    pub operator-order :
        (v x : Json F) (o : Order)
        → compare N v x ≡ some o
        → (operator N (some v) op_gte x ≡ not (operator N (some v) op_lt x))
          × (operator N (some v) op_lte x ≡ not (operator N (some v) op_gt x))
          × (operator N (some v) op_eq x
              ≡ (operator N (some v) op_gte x && operator N (some v) op_lte x))
    unfolding operator equal
    operator-order v null o h = cc (compare-null v)
    operator-order v x less h = ground arith
    operator-order v x same h = ground arith
    operator-order v x greater h = ground arith

    -- A condition that is an array or an object without operators matches no document, even one that
    -- holds the very same value at the path.
    pub field_matches-composite :
        (doc : Fields F) (path : Bytes)
        → ((m : Fields F) → operators (obj m) ≡ none → field_matches N doc path (obj m) ≡ false)
          × ((xs : Items F) → field_matches N doc path (arr xs) ≡ false)
    unfolding field_matches
    field_matches-composite doc path = (
      λ m none_here.
          rw (none_here, field_matches) (equal-obj (get_path (path_of path) (obj doc)) m),
      λ xs. unfold operators in equal-arr (get_path (path_of path) (obj doc)) xs,
    )
