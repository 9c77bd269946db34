-- ===== src/Cache/Tiers.antt =====
-- Try of core/cache/cache.go: two stores read one after the other. The primary's state also holds
-- what its deadline decides, since the time limit only changes the context that it is called with.
use howl_go.Prelude.{
  ℕ, zero, suc, ◌+◌, ◌≤◌, ◌<◌, ◌≡◌, ◌∙◌, Option, none, some, List, Bytes, str_eq_refl, arith,
}
use howl_go.Cache
use howl_go.Cache.{Lru, Entry}
use howl_go.Cache.Order.{IsValid}
use howl_go.Cache.Invariant.{set-IsValid}
use howl_go.Cache.Refinement.{view, read, write, get-read, set-write}

-- The interface Store over a state.
pub record Store (S : Type 0) : Type 0 where
  pub get : Bytes → ℕ → S → Option Bytes × S
  pub set : Bytes → Bytes → ℕ → ℕ → S → S
  pub del : List Bytes → S → S

abbrev pub lru_store : Store Lru
lru_store = record { get = Cache.get; set = Cache.set; del = Cache.del }

module _ {P F : Type 0} (primary : Store P) (fallback : Store F) where
  pub try_get : Bytes → ℕ → P × F → Option Bytes × (P × F)
  try_get key now (p, f) =
      let (found, p') = primary.get key now p in
      let (second, f') = fallback.get key now f in
      elim found [ some v ↦ (some v, (p', f)) | none ↦ (second, (p', f')) ]

  pub try_set : Bytes → Bytes → ℕ → ℕ → P × F → P × F
  try_set key value ttl now (p, f) =
      (primary.set key value ttl now p, fallback.set key value ttl now f)

  pub try_del : List Bytes → P × F → P × F
  try_del keys (p, f) = (primary.del keys p, fallback.del keys f)

  pub try_store : Store (P × F)
  try_store = record { get = try_get; set = try_set; del = try_del }

read-write :
    (key value : Bytes) (expires later max : ℕ) (l : List Entry)
    → 1 ≤ max
    → later ≤ expires
    → (read key later (write key value expires max l)).0 ≡ some value
read-write key value expires later zero l room live = absurd (omega arith)
read-write key value expires later (suc max) l room live = ground (arith, str_eq_refl key)

read-write_expired :
    (key value : Bytes) (expires later max : ℕ) (l : List Entry)
    → 1 ≤ max
    → expires < later
    → (read key later (write key value expires max l)).0 ≡ none
read-write_expired key value expires later zero l room dead = absurd (omega arith)
read-write_expired key value expires later (suc max) l room dead = ground (arith, str_eq_refl key)

-- An entry that was just set in a valid store is read back until the end of its time.
pub get-set :
    (key value : Bytes) (ttl now later : ℕ) (c : Lru)
    → IsValid c
    → later ≤ now + ttl
    → (Cache.get key later (Cache.set key value ttl now c)).0 ≡ some value
get-set key value ttl now later c v live =
    let after = Cache.set key value ttl now c in
    let kept = set-IsValid key value ttl now c v in
    (get-read after kept key later).0
    ∙ rw (set-write c v key value ttl now)
        (read-write key value (now + ttl) later c.max (view c) v.room live)

-- An entry that was just set in a valid store is not read back after the end of its time.
pub get-set_expired :
    (key value : Bytes) (ttl now later : ℕ) (c : Lru)
    → IsValid c
    → now + ttl < later
    → (Cache.get key later (Cache.set key value ttl now c)).0 ≡ none
get-set_expired key value ttl now later c v dead =
    let after = Cache.set key value ttl now c in
    let kept = set-IsValid key value ttl now c v in
    (get-read after kept key later).0
    ∙ rw (set-write c v key value ttl now)
        (read-write_expired key value (now + ttl) later c.max (view c) v.room dead)

-- A value that Try sets through any primary and a valid LRU store is read back, while its time lasts,
-- when the primary answers nothing.
pub try_get-try_set :
    {P : Type 0} (primary : Store P) (p : P) (key value : Bytes) (ttl now later : ℕ) (c : Lru)
    → IsValid c
    → later ≤ now + ttl
    → (primary.get key later (primary.set key value ttl now p)).0 ≡ none
    → (try_get primary lru_store key later (try_set primary lru_store key value ttl now (p, c))).0
      ≡ some value
unfolding try_get try_set
try_get-try_set primary p key value ttl now later c v live missed =
    rw (missed, try_get) (get-set key value ttl now later c v live)
