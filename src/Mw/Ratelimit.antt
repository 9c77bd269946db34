-- ===== src/Mw/Ratelimit.antt =====
-- core/mw/ratelimit.go: the token bucket, the in-process limiter and the handler. float64 with its
-- operations, durations in seconds, the clock's reading and the key of a request are parameters. The
-- index is the list of the keys that it holds; its pointer to an element is the element of that key.
pub mod Keys
pub mod Eviction
pub mod Victims
mod Tests
use howl_go.Prelude.{
  ℕ, zero, suc, ◌+◌, ◌-◌, ◌≡◌, Bool, true, false, not, ◌||◌, Option, none, some, List, [], ◌∷◌,
  reverse, Bytes, str_eq, length, leb, ◌==◌, is_nil, if◌then◌else◌,
}

pub record Floats (F : Type 0) : Type 0 where
  pub of_int : ℕ → F
  pub add : F → F → F
  pub sub : F → F → F
  pub mul : F → F → F
  pub div : F → F → F
  pub min : F → F → F
  pub le : F → F → Bool
  pub truncated : F → ℕ
  -- Duration.Seconds, of a window and of the time between two readings of the clock
  pub in_seconds : ℕ → F
  pub since : ℕ → ℕ → F
  -- the nanoseconds of a number of seconds, and the whole seconds of a duration, rounded up
  pub nanoseconds : F → ℕ
  pub ceil_seconds : ℕ → ℕ

pub record Rate : Type 0 where
  pub requests : ℕ
  pub window : ℕ
  pub burst : ℕ

pub record Decision : Type 0 where
  pub passes : Bool
  pub remaining : ℕ
  pub retry : ℕ
  pub reset : ℕ

pub record Bucket (F : Type 0) : Type 0 where
  pub key : Bytes
  pub tokens : F
  pub last : ℕ
  pub rate : F
  pub capacity : F

pub record Limiter (F : Type 0) : Type 0 where
  pub max : ℕ
  pub index : List Bytes
  pub order : List (Bucket F)

-- delete(l.index, key)
unfoldable pub remove_key : Bytes → List Bytes → List Bytes
remove_key k [] = []
remove_key k (j ∷ js) = if str_eq j k then js else j ∷ remove_key k js

unfoldable pub has_key : Bytes → List Bytes → Bool
has_key k [] = false
has_key k (j ∷ js) = str_eq j k || has_key k js

module _ {F : Type 0} where
  -- NewLimiter
  unfoldable pub new_limiter : ℕ → Limiter F
  new_limiter max = record { max = if max == 0 then 20000 else max; index = []; order = [] }

  -- the element of a key
  unfoldable pub find_bucket : Bytes → List (Bucket F) → Option (Bucket F)
  find_bucket k [] = none
  find_bucket k (b ∷ bs) = if str_eq b.key k then some b else find_bucket k bs

  -- l.order.Remove
  unfoldable pub remove_bucket : Bytes → List (Bucket F) → List (Bucket F)
  remove_bucket k [] = []
  remove_bucket k (b ∷ bs) = if str_eq b.key k then bs else b ∷ remove_bucket k bs

  unfoldable pub indexed : Bytes → Limiter F → Option (Bucket F)
  indexed k l = if has_key k l.index then find_bucket k l.order else none

  abbrev pub without : Bucket F → Limiter F → Limiter F
  without b l = record l { order = remove_bucket b.key l.order; index = remove_key b.key l.index }

abbrev pub scan : ℕ
scan = 8

module _ {F : Type 0} (N : Floats F) where
  abbrev pub refilled : ℕ → F → F → Bucket F → F
  refilled now rate capacity b = N.min capacity (N.add b.tokens (N.mul (N.since now b.last) rate))

  -- a bucket that would let a request through now
  unfoldable pub is_spare : ℕ → Bucket F → Bool
  is_spare now b = N.le (N.of_int 1) (refilled now b.rate b.capacity b)

  -- the inner loop of evict, over the elements from the oldest
  unfoldable pub find_spare : ℕ → ℕ → List (Bucket F) → Option (Bucket F)
  find_spare zero now bs = none
  find_spare (suc i) now [] = none
  find_spare (suc i) now (b ∷ bs) =
      let rest = find_spare i now bs in if is_spare now b then some b else rest

  abbrev pub or_oldest : Bucket F → Option (Bucket F) → Bucket F
  or_oldest oldest none = oldest
  or_oldest oldest (some b) = b

  -- the victim among the elements, the oldest first
  unfoldable pub victim_of : ℕ → List (Bucket F) → Option (Bucket F)
  victim_of now [] = none
  victim_of now (oldest ∷ bs) = some (or_oldest oldest (find_spare scan now (oldest ∷ bs)))

  -- the loop of evict, on fuel; `none` is out of fuel
  unfoldable pub evict_loop : ℕ → ℕ → Limiter F → Option (Limiter F)
  evict_loop zero now l = none
  evict_loop (suc fuel) now l = elim (leb l.max (length l.index)) [
    | false ↦ some l
    | true ↦ elim (victim_of now (reverse l.order)) [
      | none ↦ some l
      | some b ↦ evict_loop fuel now (without b l)
    ]
  ]

  -- evict: each round takes one key, so a round for each and one for the last test
  unfoldable pub evict : ℕ → Limiter F → Option (Limiter F)
  evict now l = evict_loop (suc (length l.index)) now l

  abbrev pub seconds : F → ℕ
  seconds f = if N.le f (N.of_int 0) then 0 else N.nanoseconds f

  unfoldable pub decision : F → F → F → Decision × F
  decision tokens rate capacity =
      let left = N.sub tokens (N.of_int 1) in
      if N.le (N.of_int 1) tokens
      then (
        record {
          passes = true;
          remaining = N.truncated left;
          retry = 0;
          reset = seconds (N.div (N.sub capacity left) rate);
        },
        left,
      )
      else (
        record {
          passes = false;
          remaining = 0;
          retry = seconds (N.div (N.sub (N.of_int 1) tokens) rate);
          reset = seconds (N.div (N.sub capacity tokens) rate);
        },
        tokens,
      )

  abbrev pub capacity_of : Rate → F
  capacity_of r =
      if N.le (N.of_int r.burst) (N.of_int 0) then N.of_int r.requests else N.of_int r.burst

  abbrev pub rate_of : Rate → F
  rate_of r = N.div (N.of_int r.requests) (N.in_seconds r.window)

  -- the rest of Take, for the bucket at the front
  unfoldable pub spend :
      Bytes → F → Rate → ℕ → ℕ → List Bytes → List (Bucket F) → Decision × Limiter F
  spend key tokens r now max index others =
      let (d, left) = decision tokens (rate_of r) (capacity_of r) in
      let b : Bucket F = record {
        key = key;
        tokens = left;
        last = now;
        rate = rate_of r;
        capacity = capacity_of r;
      } in
      (d, record { max = max; index = index; order = b ∷ others })

  -- Take, where the key is new, once there is room
  abbrev pub take_new : Bytes → Rate → ℕ → Limiter F → Decision × Limiter F
  take_new key r now l = spend key (capacity_of r) r now l.max (key ∷ l.index) l.order

  unfoldable pub take : Bytes → Rate → ℕ → Limiter F → Option (Decision × Limiter F)
  take key r now l = elim (indexed key l) [
    | some b ↦ some (
        spend key (refilled now (rate_of r) (capacity_of r) b) r now l.max l.index
          (remove_bucket key l.order))
    | none ↦ elim (leb l.max (length l.index)) [
      | false ↦ some (take_new key r now l)
      | true ↦ elim (evict now l) [ none ↦ none | some l' ↦ some (take_new key r now l') ]
    ]
  ]

-- What the handler does with a request: it serves it without counting, serves it, or refuses it; the
-- numbers are the limit, what remains, the time of the reset, and Retry-After.
pub data Answer : Type 0 where
  uncounted : Answer
  served : ℕ → ℕ → ℕ → Answer
  refused : ℕ → ℕ → ℕ → ℕ → Answer

abbrev at_least_one : ℕ → ℕ
at_least_one zero = 1
at_least_one n = n

module _ {F : Type 0} (N : Floats F) where
  abbrev pub answered : Rate → ℕ → Decision → Answer
  answered r now d =
      if d.passes
      then served r.requests d.remaining (now + d.reset)
      else refused r.requests d.remaining (now + d.reset) (at_least_one (N.ceil_seconds d.retry))

  abbrev counted : Rate → ℕ → Option (Decision × Limiter F) → Option (Answer × Limiter F)
  counted r now none = none
  counted r now (some (d, l)) = some (answered r now d, l)

  -- the handler of a request with this key, where no store is given
  unfoldable pub handler : Rate → Bytes → ℕ → Limiter F → Option (Answer × Limiter F)
  handler r name now l =
      if (r.requests == 0) || (r.window == 0)
      then some (uncounted, l)
      else if is_nil name
      then some (uncounted, l)
      else counted r now (take N name r now l)
