-- ===== src/Cache/Invariant.antt =====
-- Every operation of the LRU store of core/cache/cache.go keeps its invariant.
use howl_go.Prelude.{
  ℕ, zero, suc, ◌+◌, ◌≤◌, ◌<◌, ◌≡◌, refl, sym, ◌∙◌, ◌⊎◌, none, some, List, [], ◌∷◌, Bytes,
  str_eq_iff, lookup, lookup-insert, lookup-delete, ltb, length, All, arith, Option-cases,
  Bool-cases, inl, inr,
}
use howl_go.Cache.{
  Entry, Element, Lru, new_lru, deref, list_remove, list_back, drop, get_at, get, shrink, set_at,
  push_front, set, del_one, del,
}
use howl_go.Cache.Order.{
  addr_of, Apart, Distinct, IsLinked, IsValid, All-deref, addr_of-deref, deref-addr_of,
  All-list_remove, Distinct-list_remove, Apart-list_remove, addr_of-list_remove, length-list_remove,
}

pub new_lru-IsValid : (max : ℕ) → IsValid (new_lru max)
unfolding new_lru lookup
new_lru-IsValid max = record {
  linked = record { indexed = λ k. refl; distinct = tt; allocated = tt };
  room = ground arith;
  bounded = ground arith;
}

pub deref-back :
    (es : List Element) (el : Element)
    → Distinct es
    → list_back es ≡ some el
    → deref el.addr es ≡ some el
unfolding list_back deref
deref-back [] el d h = ground arith
deref-back (e ∷ []) el d h = ground arith
deref-back (e ∷ f ∷ es) el d h =
    let found : deref el.addr (f ∷ es) ≡ some el = deref-back (f ∷ es) el d.1 h in
    let other : Apart e el = All-deref (Apart e) el.addr (f ∷ es) el d.0 found in
    ground (arith, found, other.0)

pub list_back-some : (es : List Element) → 0 < length es → (el : Element) × (list_back es ≡ some el)
unfolding list_back
list_back-some [] h = absurd (omega arith)
list_back-some (e ∷ []) h = (e, refl)
list_back-some (e ∷ f ∷ es) h = list_back-some (f ∷ es) (omega arith)

pub drop-IsLinked :
    (c : Lru) (el : Element)
    → IsLinked c
    → deref el.addr c.order ≡ some el
    → IsLinked (drop (some el) c)
unfolding drop
drop-IsLinked c el v found = record {
  indexed = λ k.
      rw lookup-delete
        (rw (addr_of-list_remove k el.addr c.order el v.distinct found) (rw (v.indexed k) refl));
  distinct = Distinct-list_remove el.addr c.order v.distinct;
  allocated = All-list_remove (λ e. e.addr < c.fresh) el.addr c.order v.allocated;
}

-- Putting an element, with a new value, at the front.
pub touch-IsLinked :
    (c : Lru) (el : Element) (value : Bytes) (expires : ℕ)
    → IsLinked c
    → deref el.addr c.order ≡ some el
    → IsLinked (set_at (some el) value expires c)
unfolding set_at
touch-IsLinked c el value expires v found = record {
  indexed = λ k. ground (
    arith,
    v.indexed k,
    str_eq_iff el.entry.key k,
    addr_of-deref el.addr c.order el v.distinct found,
    addr_of-list_remove k el.addr c.order el v.distinct found,
  );
  distinct = (
    Apart-list_remove el.addr c.order el v.distinct found,
    Distinct-list_remove el.addr c.order v.distinct,
  );
  allocated = (
    All-deref (λ e. e.addr < c.fresh) el.addr c.order el v.allocated found,
    All-list_remove (λ e. e.addr < c.fresh) el.addr c.order v.allocated,
  );
}

Apart-fresh :
    (k : Bytes) (n : ℕ) (entry : Entry) (es : List Element)
    → entry.key ≡ k
    → addr_of k es ≡ none
    → All (λ e. e.addr < n) es
    → All (Apart (record { addr = n; entry = entry })) es
Apart-fresh k n entry [] same h a = tt
Apart-fresh k n entry (e ∷ es) same h a = (
  (λ p. ground arith, λ p. ground (arith, str_eq_iff e.entry.key k)),
  Apart-fresh k n entry es same (ground arith) a.1,
)

All-allocated-suc :
    (n : ℕ) (es : List Element) → All (λ e. e.addr < n) es → All (λ e. e.addr < n + 1) es
All-allocated-suc n [] h = tt
All-allocated-suc n (e ∷ es) h = (omega arith, All-allocated-suc n es h.1)

pub push_front-IsLinked :
    (key value : Bytes) (expires : ℕ) (c : Lru)
    → IsLinked c
    → lookup key c.index ≡ none
    → IsLinked (push_front key value expires c)
unfolding push_front
push_front-IsLinked key value expires c v new = record {
  indexed = λ k. rw lookup-insert (rw (v.indexed k) refl);
  distinct = (
    Apart-fresh key c.fresh (record { key = key; value = value; expires = expires }) c.order refl
        (sym (v.indexed key) ∙ new) v.allocated,
    v.distinct,
  );
  allocated = (omega arith, All-allocated-suc c.fresh c.order v.allocated);
}

-- With the length as fuel the loop ends within the limit, and keeps the links.
pub shrink-IsLinked :
    (rounds : ℕ) (c : Lru)
    → IsLinked c
    → length c.order ≤ rounds
    → IsLinked (shrink rounds c)
      × (length (shrink rounds c).order ≤ c.max)
      × ((shrink rounds c).max ≡ c.max)
unfolding shrink
shrink-IsLinked zero c v h = (v, omega arith, refl)
shrink-IsLinked (suc rounds) c v h = elim (Bool-cases (ltb c.max (length c.order))) [
  | inr ends ↦ rw ends (v, ground arith, refl)
  | inl more ↦
      let (el, back) = list_back-some c.order (ground arith) in
      let found : deref el.addr c.order ≡ some el = deref-back c.order el v.distinct back in
      let shorter : length c.order ≡ suc (length (list_remove el.addr c.order)) =
        length-list_remove el.addr c.order el found in
      rw (more, back)
        (unfold drop in shrink-IsLinked rounds _ (drop-IsLinked c el v found) (omega arith))
]

-- The element that holds a key.
pub record Held (key : Bytes) (c : Lru) : Type 0 where
  pub element : Element
  pub here : deref element.addr c.order ≡ some element
  pub same : element.entry.key ≡ key
  pub shorter : length c.order ≡ suc (length (list_remove element.addr c.order))

-- Either no element holds the key, or the index leads to the one that does.
held :
    (key : Bytes) (c : Lru)
    → IsLinked c
    → ((lookup key c.index ≡ none) × (addr_of key c.order ≡ none))
      ⊎ ((h : Held key c) × (lookup key c.index ≡ some h.element.addr))
held key c v = elim (Option-cases (lookup key c.index)) [
  | inl e ↦ inl (e, sym (v.indexed key) ∙ e)
  | inr (a, e) ↦
      let (el, found, same, addr) =
        deref-addr_of key a c.order v.distinct (sym (v.indexed key) ∙ e) in
      let here : deref el.addr c.order ≡ some el = rw addr found in
      inr (
        record {
          element = el;
          here = here;
          same = same;
          shorter = length-list_remove el.addr c.order el here;
        },
        rw addr e,
      )
]

pub get-cases :
    (key : Bytes) (now : ℕ) (c : Lru)
    → IsLinked c
    → ((addr_of key c.order ≡ none) × (get key now c ≡ (none, c)))
      ⊎ ((h : Held key c) × (get key now c ≡ get_at (some h.element) now c))
get-cases key now c v = elim (held key c v) [
  | inl (e, n) ↦ inl (n, unfold get in rw (e, get) refl)
  | inr (h, e) ↦ inr (h, unfold get in rw (e, get) (rw h.here refl))
]

pub set-cases :
    (key value : Bytes) (ttl now : ℕ) (c : Lru)
    → IsLinked c
    → ((addr_of key c.order ≡ none)
        × (lookup key c.index ≡ none)
        × (set key value ttl now c
            ≡ shrink (suc (length c.order)) (push_front key value (now + ttl) c)))
      ⊎ ((h : Held key c) × (set key value ttl now c ≡ set_at (some h.element) value (now + ttl) c))
unfolding push_front
set-cases key value ttl now c v = elim (held key c v) [
  | inl (e, n) ↦ inl (n, e, unfold set in rw (e, set) refl)
  | inr (h, e) ↦ inr (h, unfold set in rw (e, set) (rw h.here refl))
]

pub del_one-cases :
    (key : Bytes) (c : Lru)
    → IsLinked c
    → ((addr_of key c.order ≡ none) × (del_one key c ≡ c))
      ⊎ ((h : Held key c) × (del_one key c ≡ drop (some h.element) c))
del_one-cases key c v = elim (held key c v) [
  | inl (e, n) ↦ inl (n, unfold del_one in rw (e, del_one) refl)
  | inr (h, e) ↦ inr (h, unfold del_one in rw (e, del_one) (rw h.here refl))
]

drop-IsValid :
    (key : Bytes) (c : Lru) (h : Held key c) → IsValid c → IsValid (drop (some h.element) c)
drop-IsValid key c h v = record {
  linked = drop-IsLinked c h.element v.linked h.here;
  room = unfold drop in v.room;
  bounded = unfold drop in omega (arith, v.bounded, h.shorter);
}

touch-IsValid :
    (key : Bytes) (c : Lru) (h : Held key c) (value : Bytes) (expires : ℕ)
    → IsValid c
    → IsValid (set_at (some h.element) value expires c)
touch-IsValid key c h value expires v = record {
  linked = touch-IsLinked c h.element value expires v.linked h.here;
  room = unfold set_at in v.room;
  bounded = unfold set_at in omega (arith, v.bounded, h.shorter);
}

-- Get keeps a store valid: index and list agree, and there are at most as many entries as allowed.
pub get-IsValid : (key : Bytes) (now : ℕ) (c : Lru) → IsValid c → IsValid (get key now c).1
get-IsValid key now c v = elim (get-cases key now c v.linked) [
  | inl (n, e) ↦ rw e v
  | inr (h, e) ↦ rw e (elim (Bool-cases (ltb h.element.entry.expires now)) [
    | inl old ↦ unfold get_at in rw old (drop-IsValid key c h v)
    | inr live ↦
        unfold get_at in
        rw live
          (unfold set_at in touch-IsValid key c h h.element.entry.value h.element.entry.expires v)
  ])
]

-- Set keeps a store valid: it never holds more entries than its limit.
pub set-IsValid :
    (key value : Bytes) (ttl now : ℕ) (c : Lru) → IsValid c → IsValid (set key value ttl now c)
set-IsValid key value ttl now c v = elim (set-cases key value ttl now c v.linked) [
  | inl (n, new, e) ↦ rw e (
      let pushed = push_front key value (now + ttl) c in
      let (linked, bounded, max) =
        shrink-IsLinked (suc (length c.order)) pushed
          (push_front-IsLinked key value (now + ttl) c v.linked new)
          (unfold push_front in omega arith) in
      let kept : pushed.max ≡ c.max = unfold push_front in refl in
      record { linked = linked; room = omega (arith, v.room); bounded = omega arith })
  | inr (h, e) ↦ rw e (touch-IsValid key c h value (now + ttl) v)
]

del_one-IsValid : (key : Bytes) (c : Lru) → IsValid c → IsValid (del_one key c)
del_one-IsValid key c v = elim (del_one-cases key c v.linked) [
  | inl (n, e) ↦ rw e v
  | inr (h, e) ↦ rw e (drop-IsValid key c h v)
]

-- Del of any keys, held or not, keeps a store valid.
pub del-IsValid : (keys : List Bytes) (c : Lru) → IsValid c → IsValid (del keys c)
unfolding del
del-IsValid [] c v = v
del-IsValid (k ∷ ks) c v = del-IsValid ks (del_one k c) (del_one-IsValid k c v)
