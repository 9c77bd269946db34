-- ===== src/Db/Sql/Actions.antt =====
-- Two relations on the actions of db/sqlite/compile.go and db/pg/compile.go, with a rule for each way
-- in which an action is built: actions that differ at most in the values they bind, and actions
-- whose text holds a mark for every parameter that they bind.
use howl_go.Prelude.{◌≡◌, List, [], ◌∷◌, Bytes, Dict, length, if◌then◌else◌, Bool, true, false}
use howl_go.Db.Value.{less, same, greater, str_compare, Order}
use howl_go.Db.Sql.{
  Outcome, ok, refused, Refusal, Action, and_then, ◌>>=◌, give, refuse, lift, insert_key, sort_keys,
  run_all,
}

-- The same value and as many parameters, or the same refusal.
pub data Like {P A : Type 0} : Outcome (A × List P) → Outcome (A × List P) → Type 0 where
  gave : (a : A) {ps qs : List P} → length ps ≡ length qs → Like (ok (a, ps)) (ok (a, qs))
  failed : (e : Refusal) → Like (refused e) (refused e)

pub record Alike {P A : Type 0} (m n : Action P A) : Type 0 where
  pub like : (ps qs : List P) → length ps ≡ length qs → Like (m ps) (n qs)

pub data AllAlike {P A : Type 0} : Dict (Action P A) → Dict (Action P A) → Type 0 where
  no_more : AllAlike [] []
  and_more :
      (k : Bytes) {m n : Action P A} {ms ns : Dict (Action P A)}
      → Alike m n
      → AllAlike ms ns
      → AllAlike ((k, m) ∷ ms) ((k, n) ∷ ns)

module _ {P A : Type 0} where
  and_then-Like :
      {B : Type 0} (f g : A → Action P B) {r s : Outcome (A × List P)}
      → Like r s
      → ((a : A) → Alike (f a) (g a))
      → Like (and_then r f) (and_then s g)
  and_then-Like f g (gave a l) h = (h a).like _ _ l
  and_then-Like f g (failed e) h = failed e

  pub give-Alike : (a : A) → Alike {P = P} (give a) (give a)
  give-Alike a = record { like = λ ps qs l. gave a l }

  pub refuse-Alike : (e : Refusal) → Alike {P = P} {A = A} (refuse e) (refuse e)
  refuse-Alike e = record { like = λ ps qs l. failed e }

  pub lift-Alike : (o : Outcome A) → Alike {P = P} (lift o) (lift o)
  lift-Alike (ok a) = give-Alike a
  lift-Alike (refused e) = refuse-Alike e

  pub if-Alike :
      (b : Bool) {m n m' n' : Action P A}
      → Alike m n
      → Alike m' n'
      → Alike (if b then m else m') (if b then n else n')
  if-Alike true h k = h
  if-Alike false h k = k

  pub >>=-Alike :
      {B : Type 0} {m n : Action P A} {f g : A → Action P B}
      → Alike m n
      → ((a : A) → Alike (f a) (g a))
      → Alike (m >>= f) (n >>= g)
  >>=-Alike {f = f} {g} h k = record { like = λ ps qs l. and_then-Like f g (h.like ps qs l) k }

  insert_key-AllAlike :
      (k : Bytes) {m n : Action P A} {ms ns : Dict (Action P A)}
      → Alike m n
      → AllAlike ms ns
      → AllAlike (insert_key k m ms) (insert_key k n ns)
  unfolding insert_key
  insert_key-AllAlike k h no_more = and_more k h no_more
  insert_key-AllAlike k {m} {n} h (and_more j {m = a} {n = b} {ms} {ns} x t) =
      place (str_compare k j) (insert_key-AllAlike k h t)
    where
      place :
          (o : Order)
          → AllAlike (insert_key k m ms) (insert_key k n ns)
          → AllAlike
              (elim o [ greater ↦ (j, a) ∷ insert_key k m ms | _ ↦ (k, m) ∷ (j, a) ∷ ms ])
              (elim o [ greater ↦ (j, b) ∷ insert_key k n ns | _ ↦ (k, n) ∷ (j, b) ∷ ns ])
      place less later = and_more k h (and_more j x t)
      place same later = and_more k h (and_more j x t)
      place greater later = and_more j x later

  pub sort_keys-AllAlike :
      {ms ns : Dict (Action P A)} → AllAlike ms ns → AllAlike (sort_keys ms) (sort_keys ns)
  unfolding sort_keys
  sort_keys-AllAlike no_more = no_more
  sort_keys-AllAlike (and_more k h t) = insert_key-AllAlike k h (sort_keys-AllAlike t)

pub run_all-Alike :
    {P : Type 0} {ms ns : Dict (Action P Bytes)} → AllAlike ms ns → Alike (run_all ms) (run_all ns)
unfolding run_all
run_all-Alike no_more = give-Alike []
run_all-Alike (and_more k h t) =
    >>=-Alike h (λ part. >>=-Alike (run_all-Alike t) (λ parts. give-Alike (part ∷ parts)))
