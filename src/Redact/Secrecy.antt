-- ===== src/Redact/Secrecy.antt =====
-- What a rendered value cannot show: core/observe/redact.go as a matter of non-interference.
use howl_go.Prelude.{
  ℕ, suc, ◌+◌, ◌≡◌, refl, ap, ◌∙◌, Bool, true, false, not, ◌&&◌, ◌||◌, [], ◌∷◌, ◌++◌, Bytes, ltb,
  if◌then◌else◌, length,
}
use howl_go.Redact.{
  Mode, is_full, Value, str, arr, obj, Items, nil, cons, Fields, end, field, count_items, personal,
  identifier, sensitive, key_text, write, write_slice, write_map, write_str, quote, guarded,
  max_rendered, quoted, ellipsis,
}

-- The text is one that the mode does not record.
abbrev pub concealed : Mode → Bool → Bytes → Bool
concealed mode hidden s = hidden || personal s || (not (is_full mode) && not (identifier s))

-- Two values with the same shape, numbers and recorded texts. Their concealed texts may differ, and
-- so may keys that hold a personal value.
mutual
  pub data Alike (mode : Mode) : Bool → Value → Value → Type 0 where
    same : {hidden : Bool} (v : Value) → Alike mode hidden v v
    texts :
        {hidden : Bool} (s t : Bytes)
        → concealed mode hidden s ≡ true
        → concealed mode hidden t ≡ true
        → Alike mode hidden (str s) (str t)
    arrays :
        {hidden : Bool} {xs ys : Items}
        → AlikeItems mode hidden xs ys
        → Alike mode hidden (arr xs) (arr ys)
    objects :
        {hidden : Bool} {fs gs : Fields}
        → AlikeFields mode hidden fs gs
        → Alike mode hidden (obj fs) (obj gs)

  pub data AlikeItems (mode : Mode) : Bool → Items → Items → Type 0 where
    none_left : {hidden : Bool} → AlikeItems mode hidden nil nil
    item :
        {hidden : Bool} {v w : Value} {vs ws : Items}
        → Alike mode hidden v w
        → AlikeItems mode hidden vs ws
        → AlikeItems mode hidden (cons v vs) (cons w ws)

  pub data AlikeFields (mode : Mode) : Bool → Fields → Fields → Type 0 where
    no_field : {hidden : Bool} → AlikeFields mode hidden end end
    entry :
        {hidden : Bool} (k j : Bytes) {v w : Value} {fs gs : Fields}
        → key_text k ≡ key_text j
        → sensitive k ≡ sensitive j
        → Alike mode (hidden || sensitive k) v w
        → AlikeFields mode hidden fs gs
        → AlikeFields mode hidden (field k v fs) (field j w gs)

count_items-Alike :
    {mode : Mode} {hidden : Bool} {xs ys : Items}
    → AlikeItems mode hidden xs ys
    → count_items xs ≡ count_items ys
count_items-Alike none_left = refl
count_items-Alike (item v vs) = ap suc (count_items-Alike vs)

module _ (marshal : Bytes → Bytes) (mode : Mode) where
  write_str-concealed :
      (b s t : Bytes) (hidden : Bool)
      → concealed mode hidden s ≡ true
      → concealed mode hidden t ≡ true
      → write_str marshal b s mode hidden ≡ write_str marshal b t mode hidden
  unfolding write_str
  write_str-concealed b s t hidden h k = rw (h, k) refl

  mutual
    unfolding write

    write-Alike :
        {hidden : Bool} {v w : Value} (b : Bytes) (depth : ℕ)
        → Alike mode hidden v w
        → write marshal b v mode hidden depth ≡ write marshal b w mode hidden depth
    write-Alike b depth (same v) = refl
    write-Alike {hidden} b depth (texts s t h k) =
        ap (guarded b depth) (write_str-concealed b s t hidden h k)
    write-Alike b depth (arrays a) =
        ap (guarded b depth) (write_slice-Alike (b ++ b'[' ∷ []) depth 0 a)
    write-Alike b depth (objects a) =
        ap (guarded b depth) (write_map-Alike (b ++ b'{' ∷ []) depth true a)

    write_slice-Alike :
        {hidden : Bool} {xs ys : Items} (b : Bytes) (depth i : ℕ)
        → AlikeItems mode hidden xs ys
        → write_slice marshal b xs mode hidden depth i
          ≡ write_slice marshal b ys mode hidden depth i
    write_slice-Alike b depth i none_left = refl
    write_slice-Alike b depth i (item v vs) =
        rw
          (
            write-Alike (if ltb 0 i then b ++ b',' ∷ [] else b) (depth + 1) v,
            write_slice-Alike _ depth (i + 1) vs,
            count_items-Alike vs,
          )
          refl

    write_map-Alike :
        {hidden : Bool} {fs gs : Fields} (b : Bytes) (depth : ℕ) (first : Bool)
        → AlikeFields mode hidden fs gs
        → write_map marshal b fs mode hidden depth first
          ≡ write_map marshal b gs mode hidden depth first
    write_map-Alike b depth first no_field = refl
    write_map-Alike {hidden} b depth first
          (entry k j {v = x} {w = y} {fs = more} {gs = others} e s v fs) =
        let comma = if first then b else b ++ b',' ∷ [] in
        let key = quote marshal comma (key_text k) ++ b':' ∷ [] in
        let later =
          λ (out : Bytes) (rest : Fields). write_map marshal out rest mode hidden depth false in
        let below = hidden || sensitive k in
        ap
          (λ rest.
            if ltb max_rendered (length comma) then comma ++ quoted ellipsis ++ b'}' ∷ [] else rest)
          (ap (λ out. later out more) (write-Alike key (depth + 1) v)
            ∙ write_map-Alike (write marshal key y mode below (depth + 1)) depth false fs
            ∙ (λ i.
                later
                  (write marshal (quote marshal comma (e i) ++ b':' ∷ []) y mode (hidden || s i)
                    (depth + 1))
                  others))
