-- ===== src/Db/Flight.antt =====
-- db/flight.go: share as a step relation. A caller is a number; a step is what one caller does
-- between two points at which another may run: under the mutex, or the load, or the channel. A result
-- stands for the pair of value and error that load gives. A follower whose value has another type
-- does not occur, as the source says, and is left out.
pub mod Sharing
pub mod Liveness
mod Tests
use howl_go.Prelude.{
  ℕ, ◌+◌, ◌≡◌, Bool, true, false, Option, none, some, Bytes, str_eq, ◌==◌, if◌then◌else◌,
}

-- Where a caller stands. A call is known by its number; `stored` is before the key is deleted,
-- `deleted` before the channel is closed.
pub data Place (R : Type 0) : Type 0 where
  arrived : Bytes → Place R
  loading : Bytes → ℕ → Place R
  stored : Bytes → ℕ → R → Place R
  deleted : ℕ → R → Place R
  waiting : ℕ → Place R
  returned : ℕ → R → Place R
  cancelled : Place R

-- `calls` is the map; `val` and `closed` are the fields of each call. `leader` is the caller that
-- made a call, which the source does not keep.
pub record Flight (R : Type 0) : Type 0 where
  pub calls : Bytes → Option ℕ
  pub val : ℕ → Option R
  pub closed : ℕ → Bool
  pub leader : ℕ → ℕ
  pub next : ℕ
  pub place : ℕ → Place R

abbrev pub at_number : {A : Type 0} → ℕ → A → (ℕ → A) → ℕ → A
at_number n v f m = if n == m then v else f m

abbrev pub at_key : {A : Type 0} → Bytes → A → (Bytes → A) → Bytes → A
at_key k v f j = if str_eq k j then v else f j

module _ {R : Type 0} where
  abbrev pub moved : ℕ → Place R → Flight R → Flight R
  moved t p s = record s { place = at_number t p s.place }

  unfoldable pub join_call : ℕ → ℕ → Flight R → Flight R
  join_call t c s = moved t (waiting c) s

  unfoldable pub make_call : ℕ → Bytes → Flight R → Flight R
  make_call t k s = record s {
    calls = at_key k (some s.next) s.calls;
    leader = at_number s.next t s.leader;
    next = s.next + 1;
    place = at_number t (loading k s.next) s.place;
  }

  unfoldable pub store_result : ℕ → Bytes → ℕ → R → Flight R → Flight R
  store_result t k c r s = record s {
    val = at_number c (some r) s.val;
    place = at_number t (stored k c r) s.place;
  }

  unfoldable pub delete_key : ℕ → Bytes → ℕ → R → Flight R → Flight R
  delete_key t k c r s = record s {
    calls = at_key k none s.calls;
    place = at_number t (deleted c r) s.place;
  }

  unfoldable pub close_call : ℕ → ℕ → R → Flight R → Flight R
  close_call t c r s = record s {
    closed = at_number c true s.closed;
    place = at_number t (returned c r) s.place;
  }

  unfoldable pub receive : ℕ → ℕ → R → Flight R → Flight R
  receive t c r s = moved t (returned c r) s

  unfoldable pub give_up : ℕ → Flight R → Flight R
  give_up t s = moved t cancelled s

  pub data Step : Flight R → Flight R → Type 0 where
    follow :
        (s : Flight R) (t : ℕ) (k : Bytes) (c : ℕ)
        → s.place t ≡ arrived k
        → s.calls k ≡ some c
        → Step s (join_call t c s)
    lead :
        (s : Flight R) (t : ℕ) (k : Bytes)
        → s.place t ≡ arrived k
        → s.calls k ≡ none
        → Step s (make_call t k s)
    load :
        (s : Flight R) (t : ℕ) (k : Bytes) (c : ℕ) (r : R)
        → s.place t ≡ loading k c
        → Step s (store_result t k c r s)
    forget :
        (s : Flight R) (t : ℕ) (k : Bytes) (c : ℕ) (r : R)
        → s.place t ≡ stored k c r
        → Step s (delete_key t k c r s)
    close :
        (s : Flight R) (t : ℕ) (c : ℕ) (r : R)
        → s.place t ≡ deleted c r
        → Step s (close_call t c r s)
    answer :
        (s : Flight R) (t : ℕ) (c : ℕ) (r : R)
        → s.place t ≡ waiting c
        → s.closed c ≡ true
        → s.val c ≡ some r
        → Step s (receive t c r s)
    cancel : (s : Flight R) (t : ℕ) (c : ℕ) → s.place t ≡ waiting c → Step s (give_up t s)

  -- no call in flight, and every caller about to ask for a key
  abbrev pub start : (ℕ → Bytes) → Flight R
  start keys = record {
    calls = λ k. none;
    val = λ c. none;
    closed = λ c. false;
    leader = λ c. 0;
    next = 0;
    place = λ t. arrived (keys t);
  }

  pub data Reachable (keys : ℕ → Bytes) : Flight R → Type 0 where
    started : Reachable keys (start keys)
    stepped : {s s' : Flight R} → Reachable keys s → Step s s' → Reachable keys s'
