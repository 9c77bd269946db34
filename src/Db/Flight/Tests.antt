-- ===== src/Db/Flight/Tests.antt =====
-- Two callers of one key: the first makes the call, the second waits for it.
use howl_go.Prelude.{ℕ, ◌≡◌, refl, Bytes, codes, str_eq}
use howl_go.Db.Flight.{
  Flight, join_call, make_call, store_result, delete_key, close_call, receive, follow, lead, load,
  forget, close, answer, start, Reachable, started, stepped,
}
use howl_go.Db.Flight.Sharing.{one_loader, one_result}

abbrev same_key : ℕ → Bytes
same_key t = codes "k"

abbrev led : Flight ℕ
led = make_call 1 (codes "k") (start same_key)

abbrev joined : Flight ℕ
joined = join_call 2 0 led

abbrev loaded : Flight ℕ
loaded = store_result 1 (codes "k") 0 7 joined

abbrev forgotten : Flight ℕ
forgotten = delete_key 1 (codes "k") 0 7 loaded

abbrev shut : Flight ℕ
shut = close_call 1 0 7 forgotten

abbrev answered : Flight ℕ
answered = receive 2 0 7 shut

reach_joined : Reachable same_key joined
unfolding make_call join_call str_eq
reach_joined =
    stepped (stepped started (lead _ 1 (codes "k") refl refl)) (follow _ 2 (codes "k") 0 refl refl)

reach_answered : Reachable same_key answered
unfolding make_call join_call store_result delete_key close_call receive str_eq
reach_answered =
    stepped
      (stepped
        (stepped (stepped reach_joined (load _ 1 (codes "k") 0 7 refl))
          (forget _ 1 (codes "k") 0 7 refl))
        (close _ 1 0 7 refl))
      (answer _ 2 0 7 refl refl refl)

abbrev first : ℕ
first = 1

abbrev shared : ℕ
shared = 7

one_loader_example : first ≡ first
unfolding make_call join_call
one_loader_example = one_loader same_key joined first first (codes "k") 0 0 reach_joined refl refl

one_result_example : shared ≡ shared
unfolding make_call join_call store_result delete_key close_call receive
one_result_example = one_result same_key answered first 2 0 shared shared reach_answered refl refl
