-- ===== src/Db/Flight/Liveness.antt =====
-- A caller that waits can be answered: db/flight.go.
use howl_go.Prelude.{ℕ, ◌<◌, ◌≡◌, true, some, Bytes}
use howl_go.Db.Flight.{loading, stored, deleted, waiting, returned, Flight, Step}

module _ {R : Type 0} where
  -- A call is closed with its result, or its leader is on the way there.
  data Led (s : Flight R) (c : ℕ) : Type 0 where
    finished : (r : R) → s.closed c ≡ true → s.val c ≡ some r → Led s c
    at_load : (k : Bytes) → s.place (s.leader c) ≡ loading k c → Led s c
    at_store : (k : Bytes) (r : R) → s.place (s.leader c) ≡ stored k c r → Led s c
    at_delete : (r : R) → s.place (s.leader c) ≡ deleted c r → Led s c

  record IsLive (s : Flight R) : Type 0 where
    pub led : (c : ℕ) → c < s.next → Led s c
    pub known : (k : Bytes) (c : ℕ) → s.calls k ≡ some c → c < s.next
    pub asked : (t c : ℕ) → s.place t ≡ waiting c → c < s.next

  pub data Steps (s : Flight R) : Flight R → Type 0 where
    stopped : Steps s s
    onward : {s' s'' : Flight R} → Steps s s' → Step s' s'' → Steps s s''

  -- the caller can be brought to an answer of its call
  abbrev pub Answerable : Flight R → ℕ → ℕ → Type 0
  Answerable s t c = (s' : Flight R) × (r : R) × Steps s s' × (s'.place t ≡ returned c r)
