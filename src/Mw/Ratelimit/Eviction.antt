-- ===== src/Mw/Ratelimit/Eviction.antt =====
-- The limiter holds no more keys than it may: core/mw/ratelimit.go.
use howl_go.Prelude.{
  ℕ, zero, suc, ◌+◌, ◌≡◌, refl, sym, ap, ◌∙◌, ◌≤◌, ◌<◌, Bool, true, Option, none, some, List, ◌∷◌,
  reverse, Bytes, str_eq, str_eq_iff, length, if◌then◌else◌, leb, arith, inl, inr, Bool-cases,
  Option-cases,
}
use howl_go.Mw.Ratelimit.{
  Bucket, Floats, Limiter, Decision, Rate, has_key, remove_bucket, indexed, victim_of, without,
  evict_loop, evict, spend, take, take_new, capacity_of, rate_of, refilled,
}
use howl_go.Mw.Ratelimit.Keys.{
  occurs, length-remove_key, occurs-remove_key, has_key-occurs, has_key-absent, keys, length-keys,
  keys-remove_bucket, occurs-reverse, find_bucket-absent, victim_of-occurs, victim_of-none,
  length-no_keys,
}

module _ {F : Type 0} where
  -- The index and the list hold the same keys, each once.
  pub record Agrees (l : Limiter F) : Type 0 where
    pub agree : (k : Bytes) → occurs k l.index ≡ occurs k (keys l.order)
    pub once : (k : Bytes) → occurs k l.index ≤ 1
    pub lengths : length l.index ≡ length l.order

  -- and there is room for no more than the limit.
  pub record IsValid (l : Limiter F) : Type 0 where
    pub agrees : Agrees l
    pub bounded : length l.index ≤ l.max

  without-Agrees :
      (b : Bucket F) (l : Limiter F)
      → Agrees l
      → 0 < occurs b.key (keys l.order)
      → Agrees (without b l)
  without-Agrees b l v h = record {
    agree = λ k. rw (keys-remove_bucket b.key l.order) (
        omega (
          arith,
          v.agree k,
          v.agree b.key,
          occurs-remove_key b.key k l.index (omega (arith, v.agree b.key)),
          occurs-remove_key b.key k (keys l.order) h,
        ));
    once = λ k.
        omega (arith, v.once k, occurs-remove_key b.key k l.index (omega (arith, v.agree b.key)));
    lengths = omega (
      arith,
      v.lengths,
      length-keys l.order,
      length-keys (remove_bucket b.key l.order),
      ap length (keys-remove_bucket b.key l.order),
      length-remove_key b.key (keys l.order) h,
      length-remove_key b.key l.index (omega (arith, v.agree b.key)),
    );
  }

  abbrev is_full : Limiter F → Bool
  is_full l = leb l.max (length l.index)

  full_length : (l : Limiter F) → is_full l ≡ true → l.max ≤ length l.index
  full_length l h = ground arith

module _ {F : Type 0} (N : Floats F) where
  -- what evict leaves of a limiter
  abbrev pub Left : Limiter F → Limiter F → Type 0
  Left l l' =
      Agrees l'
      × (length l'.index < l'.max)
      × (l'.max ≡ l.max)
      × ((k : Bytes) → occurs k l.index ≡ 0 → occurs k l'.index ≡ 0)

  evict_round :
      (fuel now : ℕ) (l : Limiter F) (b : Bucket F)
      → is_full l ≡ true
      → victim_of N now (reverse l.order) ≡ some b
      → Agrees l
      → 0 < occurs b.key (keys l.order)
      → ((l' : Limiter F) × (evict_loop N fuel now (without b l) ≡ some l') × Left (without b l) l')
      → (l' : Limiter F) × (evict_loop N (suc fuel) now l ≡ some l') × Left l l'
  unfolding evict_loop
  evict_round fuel now l b full found v here (l', e, (a, room, same, fewer)) = (
    l',
    rw (evict_loop, full, found) e,
    (
      a,
      room,
      same,
      λ k gone. fewer k (
          omega
            (arith, gone, occurs-remove_key b.key k l.index (omega (arith, here, v.agree b.key)))),
    ),
  )

  evict_loop-Left :
      (fuel now : ℕ) (l : Limiter F)
      → Agrees l
      → length l.index < fuel
      → 0 < l.max
      → (l' : Limiter F) × (evict_loop N fuel now l ≡ some l') × Left l l'
  unfolding evict_loop
  evict_loop-Left zero now l v f m = absurd (omega arith)
  evict_loop-Left (suc fuel) now l v f m = elim (Bool-cases (is_full l)) [
    | inr room ↦ (l, rw (evict_loop, room) refl, (v, ground arith, refl, λ k e. e))
    | inl full ↦ elim (Option-cases (victim_of N now (reverse l.order))) [
      | inl empty ↦ absurd (
          omega (
            arith,
            full_length l full,
            v.lengths,
            length-no_keys l.order (λ k.
                sym (occurs-reverse k l.order) ∙ victim_of-none N now (reverse l.order) empty k),
          ))
      | inr (b, found) ↦
          let here : 0 < occurs b.key (keys l.order) =
            (rw (← occurs-reverse b.key l.order)
              (victim_of-occurs N now (reverse l.order) b found)) in
          evict_round fuel now l b full found v here (
            evict_loop-Left fuel now (without b l) (without-Agrees b l v here)
              (omega (arith, length-remove_key b.key l.index (omega (arith, here, v.agree b.key))))
              m)
    ]
  ]

  -- Making room ends: a limiter whose index and list agree, with a limit above zero, is left with fewer
  -- keys than its limit, still in agreement, and with no key that it did not have.
  pub evict-Left :
      (now : ℕ) (l : Limiter F)
      → Agrees l
      → 0 < l.max
      → (l' : Limiter F) × (evict N now l ≡ some l') × Left l l'
  unfolding evict
  evict-Left now l v m = evict_loop-Left (suc (length l.index)) now l v (omega arith) m

  spend-IsValid :
      (key : Bytes) (tokens : F) (r : Rate) (now max : ℕ) (index : List Bytes)
      (others : List (Bucket F))
      → ((k : Bytes) → occurs k index ≡ (if str_eq key k then 1 else 0) + occurs k (keys others))
      → ((k : Bytes) → occurs k index ≤ 1)
      → length index ≡ 1 + length others
      → length index ≤ max
      → IsValid (spend N key tokens r now max index others).1
  unfolding spend
  spend-IsValid key tokens r now max index others a o e m = record {
    agrees = record { agree = a; once = o; lengths = omega (arith, e) };
    bounded = m;
  }

  take_new-IsValid :
      (key : Bytes) (r : Rate) (now : ℕ) (l : Limiter F)
      → Agrees l
      → occurs key l.index ≡ 0
      → length l.index < l.max
      → IsValid (take_new N key r now l).1
  take_new-IsValid key r now l v absent room =
      spend-IsValid key (capacity_of N r) r now l.max (key ∷ l.index) l.order
        (λ k. omega (arith, v.agree k)) (λ k. ground (arith, v.once k, absent, str_eq_iff key k))
        (omega (arith, v.lengths)) (omega arith)

  indexed-none :
      (key : Bytes) (l : Limiter F) → Agrees l → indexed key l ≡ none → occurs key l.index ≡ 0
  unfolding indexed
  indexed-none key l v h = elim (Bool-cases (has_key key l.index)) [
    | inl held ↦ omega (arith, v.agree key, find_bucket-absent key l.order (rw held at h))
    | inr absent ↦ has_key-absent key l.index absent
  ]

  indexed-some :
      (key : Bytes) (l : Limiter F) (b : Bucket F) → indexed key l ≡ some b → 0 < occurs key l.index
  unfolding indexed
  indexed-some key l b h = elim (Bool-cases (has_key key l.index)) [
    | inl held ↦ has_key-occurs key l.index held
    | inr absent ↦ cc (rw absent at h)
  ]

  -- what Take answers and leaves
  abbrev Taken : Option (Decision × Limiter F) → Type 0
  Taken r = (d : Decision) × (l : Limiter F) × (r ≡ some (d, l)) × IsValid l

  taken : (t : Decision × Limiter F) → IsValid t.1 → Taken (some t)
  taken (d, l) v = (d, l, refl, v)

  take_again :
      (key : Bytes) (r : Rate) (now : ℕ) (l : Limiter F) (b : Bucket F)
      → IsValid l
      → indexed key l ≡ some b
      → Taken (take N key r now l)
  unfolding take
  take_again key r now l b v found =
      let held : 0 < occurs key (keys l.order) =
        omega (arith, indexed-some key l b found, v.agrees.agree key) in
      rw (take, found)
        (taken _ (
          spend-IsValid key (refilled N now (rate_of N r) (capacity_of N r) b) r now l.max l.index
            (remove_bucket key l.order)
            (λ k.
              rw (keys-remove_bucket key l.order)
                (omega (arith, v.agrees.agree k, occurs-remove_key key k (keys l.order) held)))
            v.agrees.once
            (omega (
              arith,
              v.agrees.lengths,
              length-keys l.order,
              length-keys (remove_bucket key l.order),
              ap length (keys-remove_bucket key l.order),
              length-remove_key key (keys l.order) held,
            ))
            v.bounded))

  take_full :
      (key : Bytes) (r : Rate) (now : ℕ) (l : Limiter F)
      → indexed key l ≡ none
      → is_full l ≡ true
      → occurs key l.index ≡ 0
      → ((l' : Limiter F) × (evict N now l ≡ some l') × Left l l')
      → Taken (take N key r now l)
  unfolding take
  take_full key r now l fresh full absent (l', e, (a, room, same, fewer)) =
      rw (take, fresh, full, e) (taken _ (take_new-IsValid key r now l' a (fewer key absent) room))

  -- Take always decides, and keeps a limiter well formed: the index and the list hold the same keys,
  -- each once, and no more of them than the limit.
  pub take-IsValid :
      (key : Bytes) (r : Rate) (now : ℕ) (l : Limiter F)
      → IsValid l
      → 0 < l.max
      → (d : Decision) × (l' : Limiter F) × (take N key r now l ≡ some (d, l')) × IsValid l'
  take-IsValid key r now l v m = elim (Option-cases (indexed key l)) [
    | inr (b, found) ↦ take_again key r now l b v found
    | inl fresh ↦
        let absent = indexed-none key l v.agrees fresh in
        elim (Bool-cases (is_full l)) [
          | inl full ↦ take_full key r now l fresh full absent (evict-Left now l v.agrees m)
          | inr room ↦
              unfold take in
              rw (take, fresh, room)
                (taken _ (take_new-IsValid key r now l v.agrees absent (ground arith)))
        ]
  ]
