-- ===== src/Mw/Ratelimit/Keys.antt =====
-- How often a key stands in the index and in the list of buckets: core/mw/ratelimit.go.
use mathlib.Core.List.{reverse-cons}
use howl_go.Prelude.{
  ℕ, zero, suc, ◌+◌, ◌≡◌, refl, ◌<◌, true, false, none, some, List, [], ◌∷◌, ◌++◌, reverse, Bytes,
  str_eq, str_eq_iff, str_eq_refl, length, if◌then◌else◌, arith,
}
use howl_go.Mw.Ratelimit.{
  Bucket, Floats, remove_key, has_key, find_bucket, remove_bucket, find_spare, victim_of, scan,
}

abbrev pub occurs : Bytes → List Bytes → ℕ
occurs k [] = 0
occurs k (j ∷ js) = (if str_eq j k then 1 else 0) + occurs k js

pub occurs-append : (k : Bytes) (s t : List Bytes) → occurs k (s ++ t) ≡ occurs k s + occurs k t
occurs-append k [] t = omega arith
occurs-append k (j ∷ js) t = omega (arith, occurs-append k js t)

pub length-remove_key :
    (k : Bytes) (js : List Bytes) → 0 < occurs k js → length (remove_key k js) + 1 ≡ length js
unfolding remove_key
length-remove_key k [] h = absurd (omega arith)
length-remove_key k (j ∷ js) h = ground (arith, length-remove_key k js)

pub occurs-remove_key :
    (k j : Bytes) (js : List Bytes)
    → 0 < occurs k js
    → occurs j (remove_key k js) + (if str_eq k j then 1 else 0) ≡ occurs j js
unfolding remove_key
occurs-remove_key k j [] h = absurd (omega arith)
occurs-remove_key k j (i ∷ is) h =
    ground (arith, occurs-remove_key k j is, str_eq_iff i k, str_eq_iff k j, str_eq_iff i j)

pub has_key-occurs : (k : Bytes) (js : List Bytes) → has_key k js ≡ true → 0 < occurs k js
unfolding has_key
has_key-occurs k [] h = cc
has_key-occurs k (j ∷ js) h = ground (arith, has_key-occurs k js)

pub has_key-absent : (k : Bytes) (js : List Bytes) → has_key k js ≡ false → occurs k js ≡ 0
unfolding has_key
has_key-absent k [] h = refl
has_key-absent k (j ∷ js) h = ground (arith, has_key-absent k js)

module _ {F : Type 0} where
  abbrev pub keys : List (Bucket F) → List Bytes
  keys [] = []
  keys (b ∷ bs) = b.key ∷ keys bs

  pub keys-append : (s t : List (Bucket F)) → keys (s ++ t) ≡ keys s ++ keys t
  keys-append [] t = refl
  keys-append (b ∷ bs) t = rw (keys-append bs t) refl

  pub length-keys : (bs : List (Bucket F)) → length (keys bs) ≡ length bs
  length-keys [] = refl
  length-keys (b ∷ bs) = omega (arith, length-keys bs)

  pub keys-remove_bucket :
      (k : Bytes) (bs : List (Bucket F)) → keys (remove_bucket k bs) ≡ remove_key k (keys bs)
  unfolding remove_bucket remove_key
  keys-remove_bucket k [] = refl
  keys-remove_bucket k (b ∷ bs) = ground (arith, keys-remove_bucket k bs)

  pub occurs-reverse :
      (k : Bytes) (bs : List (Bucket F)) → occurs k (keys (reverse bs)) ≡ occurs k (keys bs)
  occurs-reverse k [] = refl
  occurs-reverse k (b ∷ bs) =
      rw
        (
          reverse-cons b bs,
          keys-append (reverse bs) (b ∷ []),
          occurs-append k (keys (reverse bs)) (b.key ∷ []),
        )
        (omega (arith, occurs-reverse k bs))

  pub find_bucket-absent :
      (k : Bytes) (bs : List (Bucket F)) → find_bucket k bs ≡ none → occurs k (keys bs) ≡ 0
  unfolding find_bucket
  find_bucket-absent k [] h = refl
  find_bucket-absent k (b ∷ bs) h = ground (arith, find_bucket-absent k bs)

  pub length-no_keys :
      (bs : List (Bucket F)) → ((k : Bytes) → occurs k (keys bs) ≡ 0) → length bs ≡ 0
  length-no_keys [] h = refl
  length-no_keys (b ∷ bs) h = absurd (ground (arith, h b.key, str_eq_refl b.key))

  module _ (N : Floats F) where
    pub victim_of-none :
        (now : ℕ) (bs : List (Bucket F))
        → victim_of N now bs ≡ none
        → (k : Bytes) → occurs k (keys bs) ≡ 0
    unfolding victim_of
    victim_of-none now [] h k = refl
    victim_of-none now (b ∷ bs) h k = cc

    find_spare-occurs :
        (i now : ℕ) (bs : List (Bucket F)) (b : Bucket F)
        → find_spare N i now bs ≡ some b
        → 0 < occurs b.key (keys bs)
    unfolding find_spare
    find_spare-occurs zero now bs b h = cc
    find_spare-occurs (suc i) now [] b h = cc
    find_spare-occurs (suc i) now (c ∷ bs) b h =
        ground (arith, find_spare-occurs i now bs b, str_eq_iff c.key b.key)

    -- the victim is one of the buckets
    pub victim_of-occurs :
        (now : ℕ) (bs : List (Bucket F)) (b : Bucket F)
        → victim_of N now bs ≡ some b
        → 0 < occurs b.key (keys bs)
    unfolding victim_of
    victim_of-occurs now [] b h = cc
    victim_of-occurs now (c ∷ bs) b h =
        ground (arith, find_spare-occurs scan now (c ∷ bs) b, str_eq_iff c.key b.key)
