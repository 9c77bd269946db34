-- ===== src/Cache/Refinement.antt =====
-- The LRU store of core/cache/cache.go refines a plain list of entries, most recently used first.
use howl_go.Prelude.{
  ℕ, zero, suc, ◌+◌, ◌≤◌, ◌<◌, ◌≡◌, refl, sym, ap, ◌∙◌, false, Option, none, some, List, [], ◌∷◌,
  Bytes, str_eq, str_eq_iff, ltb, ◌==◌, if◌then◌else◌, length, arith, Bool-cases, inl, inr,
}
use howl_go.Cache.{
  Entry, Element, Lru, deref, list_remove, list_back, drop, get_at, get, shrink, set_at, push_front,
  set, del_one,
}
use howl_go.Cache.Order.{addr_of, Apart, Distinct, IsLinked, IsValid, All-deref, length-list_remove}
use howl_go.Cache.Invariant.{
  get-cases, set-cases, del_one-cases, deref-back, list_back-some, drop-IsLinked,
  push_front-IsLinked,
}

abbrev pub entries : List Element → List Entry
entries [] = []
entries (e ∷ es) = e.entry ∷ entries es

abbrev pub view : Lru → List Entry
view c = entries c.order

abbrev pub find : Bytes → List Entry → Option Entry
find k [] = none
find k (e ∷ es) = if str_eq e.key k then some e else find k es

abbrev pub without : Bytes → List Entry → List Entry
without k [] = []
without k (e ∷ es) = if str_eq e.key k then es else e ∷ without k es

abbrev pub take {ℓ} : {A : Type ℓ} → ℕ → List A → List A
take zero xs = []
take (suc n) [] = []
take (suc n) (x ∷ xs) = x ∷ take n xs

-- A read answers with a live entry and moves it to the front; a dead one is removed.
abbrev read_found : Option Entry → Bytes → ℕ → List Entry → Option Bytes × List Entry
read_found none k now l = (none, l)
read_found (some e) k now l =
    if ltb e.expires now then (none, without k l) else (some e.value, e ∷ without k l)

abbrev pub read : Bytes → ℕ → List Entry → Option Bytes × List Entry
read k now l = read_found (find k l) k now l

-- A write puts the entry in front of the others, and keeps as many as the limit allows.
abbrev pub write : Bytes → Bytes → ℕ → ℕ → List Entry → List Entry
write k v expires max l =
    take max ((record { key = k; value = v; expires = expires }) ∷ without k l)

find-absent : (k : Bytes) (es : List Element) → addr_of k es ≡ none → find k (entries es) ≡ none
find-absent k [] h = refl
find-absent k (e ∷ es) h = ground (arith, find-absent k es)

without-absent :
    (k : Bytes) (es : List Element) → addr_of k es ≡ none → without k (entries es) ≡ entries es
without-absent k [] h = refl
without-absent k (e ∷ es) h = ground (arith, without-absent k es)

module _ (el : Element) where
  find-held :
      (es : List Element)
      → Distinct es
      → deref el.addr es ≡ some el
      → find el.entry.key (entries es) ≡ some el.entry
  unfolding deref
  find-held [] d h = ground arith
  find-held (e ∷ es) d h = elim (Bool-cases (e.addr == el.addr)) [
    | inl t ↦ ground (arith, str_eq_iff e.entry.key el.entry.key)
    | inr f ↦
        let found : deref el.addr es ≡ some el = ground arith in
        let other : Apart e el = All-deref (Apart e) el.addr es el d.0 found in
        ground (arith, str_eq_iff e.entry.key el.entry.key, find-held es d.1 found)
  ]

  without-held :
      (es : List Element)
      → Distinct es
      → deref el.addr es ≡ some el
      → entries (list_remove el.addr es) ≡ without el.entry.key (entries es)
  unfolding deref list_remove
  without-held [] d h = refl
  without-held (e ∷ es) d h = elim (Bool-cases (e.addr == el.addr)) [
    | inl t ↦ ground (arith, str_eq_iff e.entry.key el.entry.key)
    | inr f ↦
        let found : deref el.addr es ≡ some el = ground arith in
        let other : Apart e el = All-deref (Apart e) el.addr es el d.0 found in
        ground (arith, str_eq_iff e.entry.key el.entry.key, without-held es d.1 found)
  ]

take-length : (n : ℕ) (es : List Element) → length es ≤ n → take n (entries es) ≡ entries es
take-length zero [] h = refl
take-length zero (e ∷ es) h = absurd (omega arith)
take-length (suc n) [] h = refl
take-length (suc n) (e ∷ es) h = ap (λ l. e.entry ∷ l) (take-length n es (omega arith))

take-remove_back :
    (n : ℕ) (es : List Element) (el : Element)
    → Distinct es
    → list_back es ≡ some el
    → n < length es
    → take n (entries (list_remove el.addr es)) ≡ take n (entries es)
unfolding list_back list_remove
take-remove_back zero es el d h lt = refl
take-remove_back (suc n) [] el d h lt = refl
take-remove_back (suc n) (e ∷ []) el d h lt = absurd (omega arith)
take-remove_back (suc n) (e ∷ f ∷ es) el d h lt =
    let found : deref el.addr (f ∷ es) ≡ some el = deref-back (f ∷ es) el d.1 h in
    let other : Apart e el = All-deref (Apart e) el.addr (f ∷ es) el d.0 found in
    let differs : (e.addr == el.addr) ≡ false = ground (arith, other.0) in
    rw differs (ap (λ l. e.entry ∷ l) (take-remove_back n (f ∷ es) el d.1 h (omega arith)))

view-shrink :
    (rounds : ℕ) (c : Lru)
    → IsLinked c
    → length c.order ≤ rounds
    → view (shrink rounds c) ≡ take c.max (view c)
unfolding shrink
view-shrink zero c v h = sym (take-length c.max c.order (omega arith))
view-shrink (suc rounds) c v h = elim (Bool-cases (ltb c.max (length c.order))) [
  | inr ends ↦ rw ends (sym (take-length c.max c.order (ground arith)))
  | inl more ↦
      let (el, back) = list_back-some c.order (ground arith) in
      let found : deref el.addr c.order ≡ some el = deref-back c.order el v.distinct back in
      let shorter : length c.order ≡ suc (length (list_remove el.addr c.order)) =
        length-list_remove el.addr c.order el found in
      rw (more, back)
        (unfold drop in
          view-shrink rounds _ (drop-IsLinked c el v found) (omega arith)
          ∙ take-remove_back c.max c.order el v.distinct back (ground arith))
]

module _ (c : Lru) (v : IsValid c) where
  -- On a valid store Get answers as a read of the list does, and leaves the list that the read
  -- leaves: a live entry moves to the front, a dead one is removed.
  pub get-read :
      (key : Bytes) (now : ℕ)
      → ((get key now c).0 ≡ (read key now (view c)).0)
        × (view (get key now c).1 ≡ (read key now (view c)).1)
  get-read key now = elim (get-cases key now c v.linked) [
    | inl (n, e) ↦ rw (e, find-absent key c.order n) (refl, refl)
    | inr (h, e) ↦
        rw (e, ← h.same, find-held h.element c.order v.linked.distinct h.here)
          (let gone = without-held h.element c.order v.linked.distinct h.here in
            unfold get_at drop in
            elim (Bool-cases (ltb h.element.entry.expires now)) [
              | inl old ↦ rw old (refl, gone)
              | inr live ↦ rw live (refl, ap (λ l. h.element.entry ∷ l) gone)
            ])
  ]

  -- On a valid store Set leaves the list that a write leaves: the new entry in front, and the least
  -- recently used one dropped where there is no room.
  pub set-write :
      (key value : Bytes) (ttl now : ℕ)
      → view (set key value ttl now c) ≡ write key value (now + ttl) c.max (view c)
  set-write key value ttl now = elim (set-cases key value ttl now c v.linked) [
    | inl (n, new, e) ↦
        rw (e, without-absent key c.order n)
          (view-shrink (suc (length c.order)) (push_front key value (now + ttl) c)
              (push_front-IsLinked key value (now + ttl) c v.linked new)
              (unfold push_front in omega arith)
            ∙ (unfold push_front in refl))
    | inr (h, e) ↦
        let gone = without-held h.element c.order v.linked.distinct h.here in
        let shorter = h.shorter in
        let el = h.element in
        let entry : Entry = record el.entry { value = value; expires = now + ttl } in
        let updated : List Element = (record el { entry = entry }) ∷ list_remove el.addr c.order in
        rw (e, ← h.same, ← gone)
          (unfold set_at in sym (take-length c.max updated (omega (arith, v.bounded))))
  ]

  -- On a valid store Del of one key removes its entry from the list, and no other.
  pub del_one-without : (key : Bytes) → view (del_one key c) ≡ without key (view c)
  del_one-without key = elim (del_one-cases key c v.linked) [
    | inl (n, e) ↦ rw (e, without-absent key c.order n) refl
    | inr (h, e) ↦
        rw (e, ← h.same) (unfold drop in without-held h.element c.order v.linked.distinct h.here)
  ]
