-- ===== src/Cache.antt =====
-- core/cache/cache.go: the in-process LRU store and the two-tier Try store.
-- A list element has an address, as a pointer has; the index maps a key to an address. Times are
-- nanoseconds, and the clock's reading is an argument.
pub mod Order
pub mod Invariant
pub mod Refinement
pub mod Tiers
mod Tests
use howl_go.Prelude.{
  ℕ, zero, suc, ◌+◌, Bool, true, false, Option, none, some, List, [], ◌∷◌, Bytes, Dict, lookup,
  delete, insert, ltb, ◌==◌, if◌then◌else◌, length,
}

pub record Entry : Type 0 where
  pub key : Bytes
  pub value : Bytes
  pub expires : ℕ

pub record Element : Type 0 where
  pub addr : ℕ
  pub entry : Entry

-- `order` has its front at the head; `fresh` is the next address to allocate.
pub record Lru : Type 0 where
  pub max : ℕ
  pub index : Dict ℕ
  pub order : List Element
  pub fresh : ℕ

-- a limit below zero is given as 0
unfoldable pub new_lru : ℕ → Lru
new_lru max = record { max = if max == 0 then 1000 else max; index = []; order = []; fresh = 0 }

-- what the pointer `a` refers to
unfoldable pub deref : ℕ → List Element → Option Element
deref a [] = none
deref a (e ∷ es) = if e.addr == a then some e else deref a es

-- order.Remove(el)
unfoldable pub list_remove : ℕ → List Element → List Element
list_remove a [] = []
list_remove a (e ∷ es) = if e.addr == a then es else e ∷ list_remove a es

-- order.Back()
unfoldable pub list_back : List Element → Option Element
list_back [] = none
list_back (e ∷ []) = some e
list_back (e ∷ f ∷ es) = list_back (f ∷ es)

unfoldable pub drop : Option Element → Lru → Lru
unfolding list_remove delete
drop none c = c
drop (some el) c = record c {
  order = list_remove el.addr c.order;
  index = delete el.entry.key c.index;
}

unfoldable pub get_at : Option Element → ℕ → Lru → Option Bytes × Lru
unfolding drop
get_at none now c = (none, c)
get_at (some el) now c =
    if ltb el.entry.expires now
    then (none, drop (some el) c)
    else (some el.entry.value, record c { order = el ∷ list_remove el.addr c.order })

-- `now` is the clock's reading
unfoldable pub get : Bytes → ℕ → Lru → Option Bytes × Lru
get key now c = elim (lookup key c.index) [
  | none ↦ (none, c)
  | some a ↦ get_at (deref a c.order) now c
]

-- the loop `for c.order.Len() > c.max`, on the length as fuel
unfoldable pub shrink : ℕ → Lru → Lru
unfolding drop list_back
shrink zero c = c
shrink (suc rounds) c =
    let rest = shrink rounds (drop (list_back c.order) c) in
    if ltb c.max (length c.order) then rest else c

unfoldable pub set_at : Option Element → Bytes → ℕ → Lru → Lru
set_at none value expires c = c
set_at (some el) value expires c = record c {
  order =
      (record el { entry = record el.entry { value = value; expires = expires } })
      ∷ list_remove el.addr c.order;
}

unfoldable pub push_front : Bytes → Bytes → ℕ → Lru → Lru
push_front key value expires c = record c {
  order =
      (record { addr = c.fresh; entry = record { key = key; value = value; expires = expires } })
      ∷ c.order;
  index = insert key c.fresh c.index;
  fresh = c.fresh + 1;
}

unfoldable pub set : Bytes → Bytes → ℕ → ℕ → Lru → Lru
set key value ttl now c = elim (lookup key c.index) [
  | none ↦ let pushed = push_front key value (now + ttl) c in shrink (length pushed.order) pushed
  | some a ↦ set_at (deref a c.order) value (now + ttl) c
]

unfoldable pub del_one : Bytes → Lru → Lru
del_one k c = elim (lookup k c.index) [ none ↦ c | some a ↦ drop (deref a c.order) c ]

unfoldable pub del : List Bytes → Lru → Lru
del [] c = c
del (k ∷ ks) c = del ks (del_one k c)
