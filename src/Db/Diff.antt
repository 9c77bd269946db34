-- ===== src/Db/Diff.antt =====
-- db/json.go: the update that a patch writes, and the projection of a document.
-- A raw message stands as what it decodes to; `none` is one that is no JSON object. The declared
-- names of a document type come from reflection and are a function here.
pub mod Envelope
pub mod Projection
use howl_go.Prelude.{
  ℕ, suc, Bool, true, false, not, ◌&&◌, ◌||◌, Option, none, some, List, [], ◌∷◌, ◌++◌, Bytes, codes,
  str_eq, Dict, insert, ◌==◌, if◌then◌else◌, is_some,
}
use howl_go.Db.Value.{
  Json, null, bool, num, str, arr, obj, Items, nil, cons, Fields, end, field, Numbers, get, put,
}
use howl_go.Db.Filter.{id_path, version_path, meta_path, path_of}

module _ {F : Type 0} where
  abbrev pub size : Fields F → ℕ
  size end = 0
  size (field _ _ m) = suc (size m)

  abbrev is_obj : Option (Json F) → Bool
  is_obj (some (obj _)) = true
  is_obj _ = false

  abbrev pub fields_of : Option (Json F) → Fields F
  fields_of (some (obj m)) = m
  fields_of _ = end

  -- some key of the first is missing in the second
  unfoldable pub loses : Fields F → Fields F → Bool
  unfolding get
  loses end after = false
  loses (field k _ m) after = not (is_some (get k after)) || loses m after

  module _ (N : Numbers F) where
    -- reflect.DeepEqual on decoded values: maps agree as maps
    unfoldable mutual
      pub json_equal : Json F → Json F → Bool
      json_equal null null = true
      json_equal (bool a) (bool b) = if a then b else not b
      json_equal (num x) (num y) = not (N.lt x y) && not (N.lt y x)
      json_equal (str s) (str t) = str_eq s t
      json_equal (arr xs) (arr ys) = items_equal xs ys
      json_equal (obj m) (obj n) = size m == size n && fields_equal m n
      json_equal _ _ = false

      pub items_equal : Items F → Items F → Bool
      items_equal nil nil = true
      items_equal (cons x xs) (cons y ys) = json_equal x y && items_equal xs ys
      items_equal _ _ = false

      pub fields_equal : Fields F → Fields F → Bool
      fields_equal end n = true
      fields_equal (field k v m) n =
          elim (get k n) [ none ↦ false | some w ↦ json_equal v w ] && fields_equal m n

    abbrev pub unchanged : Option (Json F) → Json F → Bool
    unchanged none av = false
    unchanged (some bv) av = json_equal bv av

    unfoldable mutual
      -- one round of diff and of diffObject, at the dotted path
      pub diff_value : Bytes → Option (Json F) → Json F → Dict (Json F) → Dict (Json F)
      diff_value path had (obj after) set =
          let whole = insert path (obj after) set in
          let nested = diff_object path (fields_of had) after set in
          if unchanged had (obj after)
          then set
          else if is_obj had
          then (if loses (fields_of had) after then whole else nested)
          else whole
      diff_value path had av set = if unchanged had av then set else insert path av set

      -- the second loop of diffObject
      pub diff_object : Bytes → Fields F → Fields F → Dict (Json F) → Dict (Json F)
      diff_object prefix before end set = set
      diff_object prefix before (field key av after) set =
          diff_object prefix before after
            (diff_value (prefix ++ b'.' ∷ key) (get key before) av set)

    -- the loop of diff over the keys to set
    unfoldable pub diff_set : Fields F → Fields F → Dict (Json F) → Dict (Json F)
    unfolding str_eq
    diff_set before end set = set
    diff_set before (field key av after) set = diff_set before after (
        if str_eq key id_path || str_eq key version_path
        then set
        else diff_value key (get key before) av set)

    -- the loop of diff over the keys to remove
    unfoldable pub diff_unset : Fields F → Fields F → (Bytes → Bool) → List Bytes
    diff_unset end after declared = []
    diff_unset (field key _ before) after declared =
        let rest = diff_unset before after declared in
        if not (is_some (get key after)) && declared key then key ∷ rest else rest

    unfoldable pub diff :
        Option (Fields F) → Option (Fields F) → (Bytes → Bool) → Option (Dict (Json F) × List Bytes)
    unfolding diff_set diff_unset
    diff (some before) (some after) declared =
        some (diff_set before after [], diff_unset before after declared)
    diff _ _ declared = none

  -- the rest of a path below a segment: a broader path may have selected it whole
  abbrev pub keep_below : Bytes → Option (Json F) → (Fields F → Fields F) → Fields F → Fields F
  keep_below seg (some (bool true)) below node = node
  keep_below seg (some (obj child)) below node = put seg (obj (below child)) node
  keep_below seg _ below node = put seg (obj (below end)) node

  -- one path of prune's tree: a leaf is `true`
  unfoldable pub keep_path : List Bytes → Fields F → Fields F
  unfolding put
  keep_path [] node = node
  keep_path (seg ∷ []) node = put seg (bool true) node
  keep_path (seg ∷ next ∷ segs) node = keep_below seg (get seg node) (keep_path (next ∷ segs)) node

  unfoldable pub keep_tree : List Bytes → Fields F → Fields F
  keep_tree [] tree = tree
  keep_tree (path ∷ paths) tree = keep_tree paths (keep_path (path_of path) tree)

  unfoldable mutual
    -- what pruneNode keeps of a value, by the tree's value for it
    pub prune_value : Json F → Json F → Json F
    prune_value (obj keep) (obj fields) = obj (prune_fields keep fields)
    prune_value _ value = value

    -- the loop of pruneNode over the tree
    pub prune_fields : Fields F → Fields F → Fields F
    prune_fields end fields = end
    prune_fields (field key want keep) fields = elim (get key fields) [
      | none ↦ prune_fields keep fields
      | some value ↦ field key (prune_value want value) (prune_fields keep fields)
    ]

  -- prune of an object
  unfoldable pub prune : Fields F → List Bytes → Fields F
  prune doc keep = prune_fields (keep_tree (id_path ∷ version_path ∷ meta_path ∷ keep) end) doc
