-- ===== src/Db/Coherence/Freshness.antt =====
-- No stale entry under the current version: db/service.go.
use howl_go.Prelude.{ℕ, ◌≤◌, ◌<◌, ◌≡◌, ◌≢◌, Bool, none, some, Bytes}
use howl_go.Db.Coherence.{Place, keyed, loaded, wrote, Shared}

module _ {S A : Type 0} (read : Bytes → S → A) (fits : A → Bool) where
  -- no caller stands between its write and the end of its invalidation
  abbrev pub Settled : Shared S A → Type 0
  Settled s = (t : ℕ) → s.place t ≢ wrote

  -- what a place says: its version is no later than the current one, and an answer that is held for
  -- the current version is the backend's, once no write is under way
  abbrev Sound : Shared S A → Place A → Type 0
  Sound s (keyed v k) = v ≤ s.version
  Sound s (loaded v k a) = (v ≤ s.version) × (Settled s → v ≡ s.version → a ≡ read k s.store)
  Sound s _ = Unit

  record IsSound (s : Shared S A) : Type 0 where
    pub places : (t : ℕ) → Sound s (s.place t)
    pub later : (v : ℕ) (k : Bytes) → s.version < v → s.entry v k ≡ none
    pub current :
        (k : Bytes) (a : A) → Settled s → s.entry s.version k ≡ some a → a ≡ read k s.store
