-- ===== src/Mw/Ratelimit/Tests.antt =====
-- A limiter of two keys, whole numbers standing for the floats.
use howl_go.Prelude.{
  ℕ, ◌+◌, ◌-◌, ◌*◌, ◌/◌, ◌<◌, ◌≡◌, refl, true, some, [], ◌∷◌, Bytes, codes, str_eq, str_eq_iff, leb,
  length, if◌then◌else◌, arith,
}
use howl_go.Mw.Ratelimit.{
  Floats, Rate, Bucket, Limiter, Decision, decision, spend, take, indexed, has_key, find_bucket,
  remove_bucket, remove_key, evict, evict_loop, victim_of, find_spare, is_spare, handler, refused,
}
use howl_go.Mw.Ratelimit.Keys.{occurs}
use howl_go.Mw.Ratelimit.Eviction.{IsValid, Agrees, evict-Left, take-IsValid}

abbrev whole : Floats ℕ
whole = record {
  of_int = λ n. n;
  add = λ a b. a + b;
  sub = λ a b. a - b;
  mul = λ a b. a * b;
  div = λ a b. a / b;
  min = λ a b. if leb a b then a else b;
  le = leb;
  truncated = λ n. n;
  in_seconds = λ n. n;
  since = λ now last. now - last;
  nanoseconds = λ n. n;
  ceil_seconds = λ n. n;
}

abbrev one_a_second : Rate
one_a_second = record { requests = 10; window = 10; burst = 1 }

abbrev bucket : Bytes → ℕ → Bucket ℕ
bucket key tokens = record { key = key; tokens = tokens; last = 5; rate = 0; capacity = 9 }

abbrev ada : Bytes
ada = codes "ada"

abbrev bob : Bytes
bob = codes "bob"

-- full: bob is the older, and refuses
abbrev crowded : Limiter ℕ
crowded = record { max = 2; index = ada ∷ bob ∷ []; order = bucket ada 4 ∷ bucket bob 0 ∷ [] }

abbrev eve : Bytes
eve = codes "eve"

abbrev after_eve : Limiter ℕ
after_eve = record {
  max = 2;
  index = eve ∷ bob ∷ [];
  order = record { key = eve; tokens = 0; last = 5; rate = 1; capacity = 1 } ∷ bucket bob 0 ∷ [];
}

-- Ada's bucket makes room, though Bob's is older.
kept_refusing :
    take whole eve one_a_second 5 crowded
    ≡ some (record { passes = true; remaining = 0; retry = 0; reset = 1 }, after_eve)
unfolding take spend decision indexed has_key evict evict_loop victim_of find_spare is_spare
    remove_bucket remove_key str_eq
kept_refusing = refl

abbrev nothing : ℕ
nothing = 0

abbrev a_second : ℕ
a_second = 1

refused_bob :
    handler whole one_a_second bob 5 crowded
    ≡ some (
      refused 10 0 6 1,
      record {
        max = 2;
        index = ada ∷ bob ∷ [];
        order =
            record { key = bob; tokens = 0; last = 5; rate = 1; capacity = 1 } ∷ bucket ada 4 ∷ [];
      },
    )
unfolding handler take spend decision indexed has_key find_bucket remove_bucket str_eq
refused_bob = refl

crowded-Agrees : Agrees crowded
crowded-Agrees = record {
  agree = λ k. refl;
  once = λ k. ground (arith, str_eq_iff ada k, str_eq_iff bob k);
  lengths = refl;
}

crowded-IsValid : IsValid crowded
crowded-IsValid = record { agrees = crowded-Agrees; bounded = omega arith }

evict-Left_example :
    (l : Limiter ℕ) × (evict whole 5 crowded ≡ some l)
    × (Agrees l
        × (length l.index < l.max)
        × (l.max ≡ crowded.max)
        × ((k : Bytes) → occurs k crowded.index ≡ 0 → occurs k l.index ≡ 0))
evict-Left_example = evict-Left whole 5 crowded crowded-Agrees (omega arith)

take-IsValid_example :
    (d : Decision) × (l : Limiter ℕ) × (take whole eve one_a_second 5 crowded ≡ some (d, l))
    × IsValid l
take-IsValid_example = take-IsValid whole eve one_a_second 5 crowded crowded-IsValid (omega arith)
