-- ===== src/Db/Sql/Marks.antt =====
-- How often a byte stands in the texts of db/sqlite/compile.go and db/pg/compile.go, against the
-- parameters that an action binds.
use howl_go.Prelude.{
  ℕ, ◌+◌, ◌≡◌, refl, ◌≢◌, ◌++◌, Bool, true, false, List, [], ◌∷◌, Bytes, join, Dict, length, ◌==◌,
  if◌then◌else◌, arith,
}
use howl_go.Db.Value.{less, same, greater, str_compare, Order}
use howl_go.Db.Sql.{
  Outcome, ok, refused, Refusal, Action, and_then, ◌>>=◌, give, refuse, lift, insert_key, sort_keys,
  run_all, join_with,
}

-- With n marks in hand, the action's value weighs n and one for each parameter that it binds.
pub data Costs {P A : Type 0} (w : A → ℕ) (n l : ℕ) : Outcome (A × List P) → Type 0 where
  paid : (a : A) (ps : List P) → w a + l ≡ n + length ps → Costs w n l (ok (a, ps))
  unpaid : (e : Refusal) → Costs w n l (refused e)

pub record Spends {P A : Type 0} (n : ℕ) (m : Action P A) (w : A → ℕ) : Type 0 where
  pub spends : (ps : List P) → Costs w n (length ps) (m ps)

module _ {P A : Type 0} where
  pub paid-eq :
      {n : ℕ} {m : Action P A} {w : A → ℕ} {a : A} {ps : List P}
      → Spends n m w
      → m [] ≡ ok (a, ps)
      → w a ≡ n + length ps
  paid-eq {n} {m} {w} {a} {ps} h e = cost (m []) (h.spends []) e
    where
      cost : (r : Outcome (A × List P)) → Costs w n 0 r → r ≡ ok (a, ps) → w a ≡ n + length ps
      cost r (paid b qs c) e = ground arith
      cost r (unpaid f) e = cc

  and_then-Costs :
      {B : Type 0} (f : A → Action P B) {v : A → ℕ} {w : B → ℕ} {n l : ℕ} {r : Outcome (A × List P)}
      → Costs v n l r
      → ((a : A) → Spends (v a) (f a) w)
      → Costs w n l (and_then r f)
  and_then-Costs {B = B} f {v} {w} {n} {l} (paid a ps c) h = onward (f a ps) ((h a).spends ps)
    where
      onward : (s : Outcome (B × List P)) → Costs w (v a) (length ps) s → Costs w n l s
      onward s (paid b qs d) = paid b qs (omega arith)
      onward s (unpaid e) = unpaid e
  and_then-Costs f (unpaid e) h = unpaid e

  pub give-Spends : {w : A → ℕ} {n : ℕ} (a : A) → w a ≡ n → Spends {P = P} n (give a) w
  give-Spends a e = record { spends = λ ps. paid a ps (omega arith) }

  pub refuse-Spends : {w : A → ℕ} {n : ℕ} (e : Refusal) → Spends {P = P} n (refuse e) w
  refuse-Spends e = record { spends = λ ps. unpaid e }

  pub if-Spends :
      (b : Bool) {n : ℕ} {m m' : Action P A} {w : A → ℕ}
      → Spends n m w
      → Spends n m' w
      → Spends n (if b then m else m') w
  if-Spends true h k = h
  if-Spends false h k = k

  pub >>=-Spends :
      {B : Type 0} {n : ℕ} {m : Action P A} {f : A → Action P B} {v : A → ℕ} {w : B → ℕ}
      → Spends n m v
      → ((a : A) → Spends (v a) (f a) w)
      → Spends n (m >>= f) w
  >>=-Spends {f = f} h k = record { spends = λ ps. and_then-Costs f (h.spends ps) k }

  pub lift-Spends :
      {B : Type 0} {n : ℕ} (o : Outcome A) {f : A → Action P B} {w : B → ℕ}
      → ((a : A) → o ≡ ok a → Spends n (f a) w)
      → Spends n (lift o >>= f) w
  lift-Spends (ok a) {f} h = record { spends = λ ps. (h a refl).spends ps }
  lift-Spends (refused e) h = record { spends = λ ps. unpaid e }

  -- more marks in hand
  pub framed : {m : Action P A} {w : A → ℕ} (k : ℕ) → Spends 0 m w → Spends k m (λ a. k + w a)
  framed {m} {w} k h = record { spends = λ ps. more (m ps) (h.spends ps) }
    where
      more : {l : ℕ} (r : Outcome (A × List P)) → Costs w 0 l r → Costs (λ a. k + w a) k l r
      more r (paid a ps c) = paid a ps (omega arith)
      more r (unpaid e) = unpaid e

  pub data AllSpend (w : A → ℕ) : Dict (Action P A) → Type 0 where
    no_more : AllSpend w []
    and_more :
        (k : Bytes) {m : Action P A} {ms : Dict (Action P A)}
        → Spends 0 m w
        → AllSpend w ms
        → AllSpend w ((k, m) ∷ ms)

  insert_key-AllSpend :
      {w : A → ℕ} (k : Bytes) {m : Action P A} {ms : Dict (Action P A)}
      → Spends 0 m w
      → AllSpend w ms
      → AllSpend w (insert_key k m ms)
  unfolding insert_key
  insert_key-AllSpend k h no_more = and_more k h no_more
  insert_key-AllSpend {w} k {m} h (and_more j {m = a} {ms} x t) =
      place (str_compare k j) (insert_key-AllSpend k h t)
    where
      place :
          (o : Order)
          → AllSpend w (insert_key k m ms)
          → AllSpend w (elim o [ greater ↦ (j, a) ∷ insert_key k m ms | _ ↦ (k, m) ∷ (j, a) ∷ ms ])
      place less later = and_more k h (and_more j x t)
      place same later = and_more k h (and_more j x t)
      place greater later = and_more j x later

  pub sort_keys-AllSpend :
      {w : A → ℕ} {ms : Dict (Action P A)} → AllSpend w ms → AllSpend w (sort_keys ms)
  unfolding sort_keys
  sort_keys-AllSpend no_more = no_more
  sort_keys-AllSpend (and_more k h t) = insert_key-AllSpend k h (sort_keys-AllSpend t)

-- how often a byte stands in a text, and in the texts of a list
abbrev pub occurrences : ℕ → Bytes → ℕ
occurrences c [] = 0
occurrences c (d ∷ s) = (if c == d then 1 else 0) + occurrences c s

abbrev pub total : ℕ → List Bytes → ℕ
total c [] = 0
total c (w ∷ ws) = occurrences c w + total c ws

pub length-snoc : {A : Type 0} (ps : List A) (x : A) → 1 + length ps ≡ length (ps ++ x ∷ [])
length-snoc [] x = refl
length-snoc (_ ∷ ps) x = omega (arith, length-snoc ps x)

pub occurrences-append :
    (c : ℕ) (s t : Bytes) → occurrences c (s ++ t) ≡ occurrences c s + occurrences c t
occurrences-append c [] t = omega arith
occurrences-append c (d ∷ s) t = omega (arith, occurrences-append c s t)

pub total-append : (c : ℕ) (s t : List Bytes) → total c (s ++ t) ≡ total c s + total c t
total-append c [] t = omega arith
total-append c (d ∷ s) t = omega (arith, total-append c s t)

pub occurrences-join_with :
    (c : ℕ) (separator : Bytes) (ws : List Bytes)
    → occurrences c separator ≡ 0
    → occurrences c (join_with separator ws) ≡ total c ws
unfolding join_with
occurrences-join_with c separator [] h = refl
occurrences-join_with c separator (w ∷ []) h = omega arith
occurrences-join_with c separator (w ∷ v ∷ ws) h = omega (
  arith,
  h,
  occurrences-append c w (separator ++ join_with separator (v ∷ ws)),
  occurrences-append c separator (join_with separator (v ∷ ws)),
  occurrences-join_with c separator (v ∷ ws) h,
)

pub occurrences-join : (c d : ℕ) (ws : List Bytes) → c ≢ d → occurrences c (join d ws) ≡ total c ws
unfolding join
occurrences-join c d [] h = refl
occurrences-join c d (w ∷ []) h = omega arith
occurrences-join c d (w ∷ v ∷ ws) h =
    ground (arith, h, occurrences-append c w (d ∷ join d (v ∷ ws)), occurrences-join c d (v ∷ ws) h)

pub run_all-Spends :
    {P : Type 0} (c : ℕ) {ms : Dict (Action P Bytes)}
    → AllSpend (occurrences c) ms
    → Spends 0 (run_all ms) (total c)
unfolding run_all
run_all-Spends c no_more = give-Spends [] refl
run_all-Spends c (and_more k h t) = >>=-Spends h (λ part.
    >>=-Spends {v = λ parts. occurrences c part + total c parts}
      (framed (occurrences c part) (run_all-Spends c t)) (λ parts. give-Spends (part ∷ parts) refl))
