-- ===== src/Db/Coherence.antt =====
-- The query cache of db/service.go under concurrent reads and writes, as a step relation. A caller is
-- a number; a step is one call of the cache, the versioner or the backend, between which another
-- caller may run. The backend's state, its answer to the request that a key names, and its writes
-- are parameters, so a read is Get, Find or Count. A version stands for both counters of a key. Reads
-- that share one load run it as one caller (Db/Flight.antt). A session, which never touches the cache
-- and does not invalidate it, and a time to live that only drops entries early, are left out; so is
-- a Bump that fails where another process uses the same keys.
pub mod Freshness
mod Tests
use howl_go.Prelude.{
  ℕ, ◌+◌, ◌≡◌, Bool, true, false, ◌&&◌, Option, none, some, Bytes, str_eq, ◌==◌, if◌then◌else◌,
}

-- Where a caller stands: it has built its key at a version, has loaded an answer for it that it may
-- still store, or has written to the backend and has yet to invalidate.
pub data Place (A : Type 0) : Type 0 where
  idle : Place A
  keyed : ℕ → Bytes → Place A
  loaded : ℕ → Bytes → A → Place A
  answered : A → Place A
  wrote : Place A

pub record Shared (S A : Type 0) : Type 0 where
  pub store : S
  pub version : ℕ
  pub entry : ℕ → Bytes → Option A
  pub place : ℕ → Place A

abbrev pub at_number : {A : Type 0} → ℕ → A → (ℕ → A) → ℕ → A
at_number n v f m = if n == m then v else f m

abbrev pub at_entry :
    {A : Type 0} → ℕ → Bytes → Option A → (ℕ → Bytes → Option A) → ℕ → Bytes → Option A
at_entry v k a f w j = if (v == w) && str_eq k j then a else f w j

module _ {S A : Type 0} where
  abbrev moved : ℕ → Place A → Shared S A → Shared S A
  moved t p s = record s { place = at_number t p s.place }

  -- key: the keyspace at the version that is read
  unfoldable pub build_key : ℕ → Bytes → Shared S A → Shared S A
  build_key t k s = moved t (keyed s.version k) s

  -- hit, where the cache has the entry
  unfoldable pub hit_entry : ℕ → A → Shared S A → Shared S A
  hit_entry t a s = moved t (answered a) s

  -- hit, where it has none, and the backend's read
  unfoldable pub load_answer : (Bytes → S → A) → ℕ → ℕ → Bytes → Shared S A → Shared S A
  load_answer read t v k s = moved t (loaded v k (read k s.store)) s

  -- store
  unfoldable pub keep_answer : (A → Bool) → ℕ → ℕ → Bytes → A → Shared S A → Shared S A
  keep_answer fits t v k a s = record s {
    entry = if fits a then at_entry v k (some a) s.entry else s.entry;
    place = at_number t (answered a) s.place;
  }

  -- an entry that the cache gives up
  unfoldable pub evict : ℕ → Bytes → Shared S A → Shared S A
  evict v k s = record s { entry = at_entry v k none s.entry }

  unfoldable pub write_store : ℕ → S → Shared S A → Shared S A
  write_store t x s = record s { store = x; place = at_number t wrote s.place }

  unfoldable pub retire_keys : ℕ → Shared S A → Shared S A
  retire_keys t s = record s { version = s.version + 1; place = at_number t idle s.place }

  unfoldable pub finish : ℕ → Shared S A → Shared S A
  finish t s = moved t idle s

  pub data Step (read : Bytes → S → A) (fits : A → Bool) : Shared S A → Shared S A → Type 0 where
    key :
        (s : Shared S A) (t : ℕ) (k : Bytes) → s.place t ≡ idle → Step read fits s (build_key t k s)
    hit :
        (s : Shared S A) (t v : ℕ) (k : Bytes) (a : A)
        → s.place t ≡ keyed v k
        → s.entry v k ≡ some a
        → Step read fits s (hit_entry t a s)
    load :
        (s : Shared S A) (t v : ℕ) (k : Bytes)
        → s.place t ≡ keyed v k
        → Step read fits s (load_answer read t v k s)
    keep :
        (s : Shared S A) (t v : ℕ) (k : Bytes) (a : A)
        → s.place t ≡ loaded v k a
        → Step read fits s (keep_answer fits t v k a s)
    drop : (s : Shared S A) (v : ℕ) (k : Bytes) → Step read fits s (evict v k s)
    write :
        (s : Shared S A) (t : ℕ) (x : S) → s.place t ≡ idle → Step read fits s (write_store t x s)
    again :
        (s : Shared S A) (t : ℕ) (x : S) → s.place t ≡ wrote → Step read fits s (write_store t x s)
    retire : (s : Shared S A) (t : ℕ) → s.place t ≡ wrote → Step read fits s (retire_keys t s)
    return :
        (s : Shared S A) (t : ℕ) (a : A) → s.place t ≡ answered a → Step read fits s (finish t s)

  -- an empty cache, and every caller about to begin
  abbrev pub start : S → Shared S A
  start x = record { store = x; version = 0; entry = λ v k. none; place = λ t. idle }

  pub data Reachable (read : Bytes → S → A) (fits : A → Bool) (x : S) : Shared S A → Type 0 where
    started : Reachable read fits x (start x)
    stepped :
        {s s' : Shared S A}
        → Reachable read fits x s
        → Step read fits s s'
        → Reachable read fits x s'
