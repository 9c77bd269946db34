-- ===== src/Db/Diff/Envelope.antt =====
-- The paths that a patch leaves to the store: diff and diffObject of db/json.go.
use howl_go.Prelude.{
  ◌≡◌, ap, ◌≢◌, Bool, true, false, Option, none, [], ◌∷◌, ◌++◌, Bytes, str_eq_iff, Dict, lookup,
  insert, lookup-insert, contains_byte, if◌then◌else◌, arith,
}
use howl_go.Db.Value.{Json, obj, Fields, end, field, Numbers, get}
use howl_go.Db.Diff.{is_obj, fields_of, loses, unchanged, diff_value, diff_object}

contains_byte-dotted : (prefix key : Bytes) → contains_byte b'.' (prefix ++ b'.' ∷ key) ≡ true
unfolding contains_byte
contains_byte-dotted [] key = ground arith
contains_byte-dotted (b ∷ prefix) key = ground (arith, contains_byte-dotted prefix key)

module _ {F : Type 0} (N : Numbers F) (p : Bytes) (plain : contains_byte b'.' p ≡ false) where
  dotted-ne : (prefix key : Bytes) → (prefix ++ b'.' ∷ key) ≢ p
  dotted-ne prefix key e =
      let dotted = ap (contains_byte b'.') e in
      absurd (ground (arith, contains_byte-dotted prefix key))

  lookup-insert_ne :
      (q : Bytes) (v : Json F) (set : Dict (Json F))
      → q ≢ p
      → lookup p set ≡ none
      → lookup p (insert q v set) ≡ none
  lookup-insert_ne q v set ne h = ground (arith, lookup-insert q p v set, str_eq_iff q p)

  lookup-chosen :
      (b : Bool) (left right : Dict (Json F))
      → lookup p left ≡ none
      → lookup p right ≡ none
      → lookup p (if b then left else right) ≡ none
  lookup-chosen true left right l r = l
  lookup-chosen false left right l r = r

  mutual
    unfolding diff_value

    lookup-diff_value :
        (path : Bytes) (had : Option (Json F)) (av : Json F) (set : Dict (Json F))
        → path ≢ p
        → lookup p set ≡ none
        → lookup p (diff_value N path had av set) ≡ none
    lookup-diff_value path had (obj after) set ne h =
        let whole = lookup-insert_ne path (obj after) set ne h in
        let nested = lookup-diff_object path (fields_of had) after set h in
        lookup-chosen (unchanged N had (obj after)) set _ h (
          lookup-chosen (is_obj had) _ _
            (lookup-chosen (loses (fields_of had) after) _ _ whole nested) whole)
    lookup-diff_value path had av set ne h =
        lookup-chosen (unchanged N had av) set _ h (lookup-insert_ne path av set ne h)

    lookup-diff_object :
        (prefix : Bytes) (before after : Fields F) (set : Dict (Json F))
        → lookup p set ≡ none
        → lookup p (diff_object N prefix before after set) ≡ none
    lookup-diff_object prefix before end set h = h
    lookup-diff_object prefix before (field key av after) set h =
        lookup-diff_object prefix before after _ (
          lookup-diff_value (prefix ++ b'.' ∷ key) (get key before) av set (dotted-ne prefix key) h)
