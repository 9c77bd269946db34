-- ===== src/Db/Flight/Sharing.antt =====
-- One load for each key at a time, and one result for each call: db/flight.go.
use howl_go.Prelude.{
  ℕ, ◌≤◌, ◌<◌, ◌≡◌, refl, ◌≢◌, inl, inr, false, none, some, Bytes, str_eq_iff, ◌==◌, ==_iff, arith,
  Bool-cases,
}
use howl_go.Db.Flight.{
  Place, loading, stored, deleted, waiting, returned, cancelled, Flight, at_number, join_call,
  make_call, store_result, delete_key, close_call, receive, give_up, Step, follow, lead, load,
  forget, close, answer, cancel, Reachable, started, stepped,
}

apart : (t u : ℕ) → (t == u) ≡ false → t ≢ u
apart t u h e = ground arith

module _ {R : Type 0} where
  -- What a place says of the state: who holds a key is the leader of the call under it, and a result
  -- that is held is the call's.
  abbrev Sound : Flight R → ℕ → Place R → Type 0
  Sound s t (loading k c) =
      (s.calls k ≡ some c) × (s.leader c ≡ t) × (c < s.next) × (s.val c ≡ none)
  Sound s t (stored k c r) =
      (s.calls k ≡ some c) × (s.leader c ≡ t) × (c < s.next) × (s.val c ≡ some r)
  Sound s t (deleted c r) = s.val c ≡ some r
  Sound s t (returned c r) = s.val c ≡ some r
  Sound s t _ = Unit

  record IsSound (s : Flight R) : Type 0 where
    pub places : (t : ℕ) → Sound s t (s.place t)
    pub unused : (c : ℕ) → s.next ≤ c → s.val c ≡ none

  -- A step of one caller: its own new place is sound, and what is sound of another place stays so.
  Sound-moved :
      (old new : Flight R) (t : ℕ) (p : Place R)
      → ((u : ℕ) → new.place u ≡ at_number t p old.place u)
      → Sound new t p
      → ((u : ℕ) → t ≢ u → Sound old u (old.place u) → Sound new u (old.place u))
      → IsSound old
      → (u : ℕ) → Sound new u (new.place u)
  Sound-moved old new t p e here others v u = elim (Bool-cases (t == u)) [
    | inl same ↦ rw (e u, same) (rw ((==_iff t u).0 same) at here)
    | inr other ↦ rw (e u, other) (others u (apart t u other) (v.places u))
  ]

  keep_join : (s : Flight R) (t c u : ℕ) (q : Place R) → Sound s u q → Sound (join_call t c s) u q
  unfolding join_call
  keep_join s t c u (loading k d) h = h
  keep_join s t c u (stored k d r) h = h
  keep_join s t c u (deleted d r) h = h
  keep_join s t c u (returned d r) h = h
  keep_join s t c u _ h = tt

  keep_make :
      (s : Flight R) (t : ℕ) (k : Bytes) (u : ℕ) (q : Place R)
      → s.calls k ≡ none
      → Sound s u q
      → Sound (make_call t k s) u q
  unfolding make_call
  keep_make s t k u (loading j d) free (h, l, n, v) =
      (ground (arith, str_eq_iff k j), ground arith, omega arith, v)
  keep_make s t k u (stored j d r) free (h, l, n, v) =
      (ground (arith, str_eq_iff k j), ground arith, omega arith, v)
  keep_make s t k u (deleted d r) free h = h
  keep_make s t k u (returned d r) free h = h
  keep_make s t k u _ free h = tt

  keep_store :
      (s : Flight R) (t : ℕ) (k : Bytes) (c : ℕ) (r : R) (u : ℕ) (q : Place R)
      → t ≢ u
      → Sound s t (loading k c)
      → Sound s u q
      → Sound (store_result t k c r s) u q
  unfolding store_result
  keep_store s t k c r u (loading j d) ne (m, w, b, e) (h, l, n, v) = (h, l, n, ground arith)
  keep_store s t k c r u (stored j d x) ne (m, w, b, e) (h, l, n, v) = (h, l, n, ground arith)
  keep_store s t k c r u (deleted d x) ne (m, w, b, e) h = ground arith
  keep_store s t k c r u (returned d x) ne (m, w, b, e) h = ground arith
  keep_store s t k c r u _ ne m h = tt

  keep_delete :
      (s : Flight R) (t : ℕ) (k : Bytes) (c : ℕ) (r : R) (u : ℕ) (q : Place R)
      → t ≢ u
      → Sound s t (stored k c r)
      → Sound s u q
      → Sound (delete_key t k c r s) u q
  unfolding delete_key
  keep_delete s t k c r u (loading j d) ne (m, w, b, e) (h, l, n, v) =
      (ground (arith, str_eq_iff k j), l, n, v)
  keep_delete s t k c r u (stored j d x) ne (m, w, b, e) (h, l, n, v) =
      (ground (arith, str_eq_iff k j), l, n, v)
  keep_delete s t k c r u (deleted d x) ne m h = h
  keep_delete s t k c r u (returned d x) ne m h = h
  keep_delete s t k c r u _ ne m h = tt

  keep_close :
      (s : Flight R) (t c : ℕ) (r : R) (u : ℕ) (q : Place R)
      → Sound s u q
      → Sound (close_call t c r s) u q
  unfolding close_call
  keep_close s t c r u (loading j d) h = h
  keep_close s t c r u (stored j d x) h = h
  keep_close s t c r u (deleted d x) h = h
  keep_close s t c r u (returned d x) h = h
  keep_close s t c r u _ h = tt

  keep_receive :
      (s : Flight R) (t c : ℕ) (r : R) (u : ℕ) (q : Place R)
      → Sound s u q
      → Sound (receive t c r s) u q
  unfolding receive
  keep_receive s t c r u (loading j d) h = h
  keep_receive s t c r u (stored j d x) h = h
  keep_receive s t c r u (deleted d x) h = h
  keep_receive s t c r u (returned d x) h = h
  keep_receive s t c r u _ h = tt

  keep_give_up :
      (s : Flight R) (t : ℕ) (u : ℕ) (q : Place R) → Sound s u q → Sound (give_up t s) u q
  unfolding give_up
  keep_give_up s t u (loading j d) h = h
  keep_give_up s t u (stored j d x) h = h
  keep_give_up s t u (deleted d x) h = h
  keep_give_up s t u (returned d x) h = h
  keep_give_up s t u _ h = tt

  standing : (s : Flight R) (t : ℕ) (p : Place R) → s.place t ≡ p → IsSound s → Sound s t p
  standing s t p e v = rw e at (v.places t)

  Step-IsSound : {s s' : Flight R} → Step s s' → IsSound s → IsSound s'
  Step-IsSound (follow s t k c here found) v = record {
    places =
        Sound-moved s (join_call t c s) t (waiting c) (λ u. unfold join_call in refl) tt
          (λ u ne. keep_join s t c u (s.place u)) v;
    unused = unfold join_call in v.unused;
  }
  Step-IsSound (lead s t k here free) v = record {
    places =
        Sound-moved s (make_call t k s) t (loading k s.next) (λ u. unfold make_call in refl)
          (unfold make_call in
            (
              rw ((str_eq_iff k k).1 refl) refl,
              ground arith,
              omega arith,
              v.unused s.next (omega arith),
            ))
          (λ u ne. keep_make s t k u (s.place u) free) v;
    unused = unfold make_call in λ c h. v.unused c (omega arith);
  }
  Step-IsSound (load s t k c r here) v =
      let held : Sound s t (loading k c) = standing s t (loading k c) here v in
      record {
        places =
            Sound-moved s (store_result t k c r s) t (stored k c r)
              (λ u. unfold store_result in refl)
              (unfold store_result in (held.0, held.1, held.2, ground arith))
              (λ u ne. keep_store s t k c r u (s.place u) ne held) v;
        unused = unfold store_result in λ d h. ground (arith, v.unused d h, held.2);
      }
  Step-IsSound (forget s t k c r here) v =
      let held : Sound s t (stored k c r) = standing s t (stored k c r) here v in
      record {
        places =
            Sound-moved s (delete_key t k c r s) t (deleted c r) (λ u. unfold delete_key in refl)
              (unfold delete_key in held.3) (λ u ne. keep_delete s t k c r u (s.place u) ne held) v;
        unused = unfold delete_key in v.unused;
      }
  Step-IsSound (close s t c r here) v = record {
    places =
        Sound-moved s (close_call t c r s) t (returned c r) (λ u. unfold close_call in refl)
          (unfold close_call in standing s t (deleted c r) here v)
          (λ u ne. keep_close s t c r u (s.place u)) v;
    unused = unfold close_call in v.unused;
  }
  Step-IsSound (answer s t c r here shut val) v = record {
    places =
        Sound-moved s (receive t c r s) t (returned c r) (λ u. unfold receive in refl)
          (unfold receive in val) (λ u ne. keep_receive s t c r u (s.place u)) v;
    unused = unfold receive in v.unused;
  }
  Step-IsSound (cancel s t c here) v = record {
    places =
        Sound-moved s (give_up t s) t cancelled (λ u. unfold give_up in refl) tt
          (λ u ne. keep_give_up s t u (s.place u)) v;
    unused = unfold give_up in v.unused;
  }

  Reachable-IsSound : {keys : ℕ → Bytes} {s : Flight R} → Reachable keys s → IsSound s
  Reachable-IsSound started = record { places = λ t. tt; unused = λ c h. refl }
  Reachable-IsSound (stepped before step) = Step-IsSound step (Reachable-IsSound before)

  -- a caller past the deletion of its key holds the result of its call
  pub deleted-val :
      {keys : ℕ → Bytes} {s : Flight R} (t c : ℕ) (r : R)
      → Reachable keys s
      → s.place t ≡ deleted c r
      → s.val c ≡ some r
  deleted-val {s = s} t c r reached e = standing s t (deleted c r) e (Reachable-IsSound reached)

  -- At any time at most one caller runs the load of a key: two that do are the same.
  pub one_loader :
      (keys : ℕ → Bytes) (s : Flight R) (t u : ℕ) (k : Bytes) (c d : ℕ)
      → Reachable keys s
      → s.place t ≡ loading k c
      → s.place u ≡ loading k d
      → t ≡ u
  one_loader keys s t u k c d reached e f =
      let v = Reachable-IsSound reached in
      let (h, l, n, x) = standing s t (loading k c) e v in
      let (h', l', n', x') = standing s u (loading k d) f v in cc

  -- Every caller that a call answers gets the same result, the one that made it and those that
  -- waited.
  pub one_result :
      (keys : ℕ → Bytes) (s : Flight R) (t u c : ℕ) (r x : R)
      → Reachable keys s
      → s.place t ≡ returned c r
      → s.place u ≡ returned c x
      → r ≡ x
  one_result keys s t u c r x reached e f =
      let v = Reachable-IsSound reached in
      let val : s.val c ≡ some r = standing s t (returned c r) e v in
      let also : s.val c ≡ some x = standing s u (returned c x) f v in cc
