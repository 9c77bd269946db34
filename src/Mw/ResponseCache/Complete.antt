-- ===== src/Mw/ResponseCache/Complete.antt =====
-- Only a whole response is kept: core/mw/cache.go.
use mathlib.Core.List.{append-nil, append_assoc}
use howl_go.Prelude.{
  ℕ, suc, ◌+◌, ◌≡◌, ◌≢◌, ◌⊎◌, refl, sym, ◌≤◌, ◌++◌, Bool, true, false, List, [], ◌∷◌, Bytes, length,
  if◌then◌else◌, arith,
}
use howl_go.Mw.Recorder.{Call, header, body, flushed}
use howl_go.Mw.ResponseCache.{
  Headers, Capture, capture, write_header, started, copied, pass, write, flush, Operation,
  set_header, drop_header, set_status, send, push, perform, perform_all, is_storable, status_ok,
  values, set_cookie,
}

-- what the client has of the calls: the statuses, the bytes of the body, and the flushes
abbrev pub statuses : List Call → List ℕ
statuses [] = []
statuses (header code ∷ calls) = code ∷ statuses calls
statuses (body b ∷ calls) = statuses calls
statuses (flushed ∷ calls) = statuses calls

abbrev pub bytes_of : List Call → Bytes
bytes_of [] = []
bytes_of (header code ∷ calls) = bytes_of calls
bytes_of (body b ∷ calls) = b ++ bytes_of calls
bytes_of (flushed ∷ calls) = bytes_of calls

abbrev pub flushes : List Call → ℕ
flushes [] = 0
flushes (header code ∷ calls) = flushes calls
flushes (body b ∷ calls) = flushes calls
flushes (flushed ∷ calls) = suc (flushes calls)

statuses-append : (s t : List Call) → statuses (s ++ t) ≡ statuses s ++ statuses t
statuses-append [] t = refl
statuses-append (header code ∷ s) t = rw (statuses-append s t) refl
statuses-append (body b ∷ s) t = statuses-append s t
statuses-append (flushed ∷ s) t = statuses-append s t

bytes_of-append : (s t : List Call) → bytes_of (s ++ t) ≡ bytes_of s ++ bytes_of t
bytes_of-append [] t = refl
bytes_of-append (header code ∷ s) t = bytes_of-append s t
bytes_of-append (body b ∷ s) t =
    rw (bytes_of-append s t) (sym (append_assoc b (bytes_of s) (bytes_of t)))
bytes_of-append (flushed ∷ s) t = bytes_of-append s t

flushes-append : (s t : List Call) → flushes (s ++ t) ≡ flushes s + flushes t
flushes-append [] t = omega arith
flushes-append (header code ∷ s) t = flushes-append s t
flushes-append (body b ∷ s) t = flushes-append s t
flushes-append (flushed ∷ s) t = omega (arith, flushes-append s t)

-- The capture agrees with what it has passed on.
record IsFaithful (c : Capture) : Type 0 where
  pub unsent : c.wrote ≡ false → (statuses c.below ≡ []) × (bytes_of c.below ≡ []) × (c.copy ≡ [])
  pub sent : c.wrote ≡ true → statuses c.below ≡ c.status ∷ []
  pub whole : c.skip ≡ false → bytes_of c.below ≡ c.copy
  pub unflushed : c.skip ≡ false → flushes c.below ≡ 0
  pub bounded : length c.copy ≤ c.max

length-append : (s t : Bytes) → length (s ++ t) ≡ length s + length t
length-append [] t = omega arith
length-append (c ∷ s) t = omega (arith, length-append s t)

write_header-IsFaithful : (code : ℕ) (c : Capture) → IsFaithful c → IsFaithful (write_header code c)
unfolding write_header
write_header-IsFaithful code c v = ground (
  arith,
  v.unsent,
  statuses-append c.below (header code ∷ []),
  bytes_of-append c.below (header code ∷ []),
  append-nil (bytes_of c.below),
  flushes-append c.below (header code ∷ []),
)

if-IsFaithful :
    (b : Bool) {c d : Capture} → IsFaithful c → IsFaithful d → IsFaithful (if b then c else d)
if-IsFaithful true h k = h
if-IsFaithful false h k = k

started-IsFaithful : (c : Capture) → IsFaithful c → IsFaithful (started c)
started-IsFaithful c v = if-IsFaithful c.wrote v (write_header-IsFaithful status_ok c v)

started-wrote : (c : Capture) → (started c).wrote ≡ true
unfolding write_header
started-wrote c = ground arith

-- a part of the body, of a response whose header is out
send-IsFaithful :
    (b : Bytes) (c : Capture)
    → c.wrote ≡ true
    → IsFaithful c
    → IsFaithful (pass (body b) (copied b c))
unfolding copied
send-IsFaithful b c begun v = ground (
  arith,
  v.sent,
  v.whole,
  v.unflushed,
  statuses-append c.below (body b ∷ []),
  append-nil (statuses c.below),
  bytes_of-append c.below (body b ∷ []),
  append-nil b,
  flushes-append c.below (body b ∷ []),
  length-append c.copy b,
)

-- a flush, of a response whose header is out and that is not kept
flushed-IsFaithful :
    (c : Capture) → c.wrote ≡ true → c.skip ≡ true → IsFaithful c → IsFaithful (pass flushed c)
flushed-IsFaithful c begun skipped v =
    ground (arith, v.sent, statuses-append c.below (flushed ∷ []), append-nil (statuses c.below))

skipping-IsFaithful : (c : Capture) → IsFaithful c → IsFaithful (record c { skip = true })
skipping-IsFaithful c v = ground (arith, v.unsent, v.sent)

started-skip : (c : Capture) → (started c).skip ≡ c.skip
unfolding write_header
started-skip c = ground arith

perform-IsFaithful : (o : Operation) (c : Capture) → IsFaithful c → IsFaithful (perform o c)
perform-IsFaithful (set_header k vs) c v = record {
  unsent = v.unsent;
  sent = v.sent;
  whole = v.whole;
  unflushed = v.unflushed;
  bounded = v.bounded;
}
perform-IsFaithful (drop_header k) c v = record {
  unsent = v.unsent;
  sent = v.sent;
  whole = v.whole;
  unflushed = v.unflushed;
  bounded = v.bounded;
}
perform-IsFaithful (set_status code) c v = write_header-IsFaithful code c v
perform-IsFaithful (send b) c v =
    unfold write in send-IsFaithful b (started c) (started-wrote c) (started-IsFaithful c v)
perform-IsFaithful push c v =
    unfold flush in
    (let skipping = record c { skip = true } in
      flushed-IsFaithful (started skipping) (started-wrote skipping) (started-skip skipping)
        (started-IsFaithful skipping (skipping-IsFaithful c v)))

perform_all-IsFaithful :
    (os : List Operation) (c : Capture) → IsFaithful c → IsFaithful (perform_all os c)
unfolding perform_all
perform_all-IsFaithful [] c v = v
perform_all-IsFaithful (o ∷ os) c v =
    perform_all-IsFaithful os (perform o c) (perform-IsFaithful o c v)

capture-IsFaithful : (h : Headers) (max : ℕ) → IsFaithful (capture h max)
unfolding capture
capture-IsFaithful h max = record {
  unsent = λ e. (refl, refl, refl);
  sent = λ e. cc;
  whole = λ e. refl;
  unflushed = λ e. refl;
  bounded = omega arith;
}

-- What is kept is a whole response: whatever the handler did, where its capture is storable the client
-- was sent the status 200 once and nothing was flushed, and the copy is every byte of the body that
-- the client was sent, within the limit.
pub is_storable-whole :
    (os : List Operation) (h : Headers) (max : ℕ) (c : Capture)
    → perform_all os (capture h max) ≡ c
    → is_storable c ≡ true
    → (statuses c.below ≡ 200 ∷ [])
      × (flushes c.below ≡ 0)
      × (bytes_of c.below ≡ c.copy)
      × (length c.copy ≤ c.max)
unfolding is_storable
is_storable-whole os h max c e ok =
    let v : IsFaithful c =
      rw e at (perform_all-IsFaithful os (capture h max) (capture-IsFaithful h max)) in
    ground (arith, v.sent, v.whole, v.unflushed)

-- a capture that will not be kept
abbrev pub IsLost : Capture → Type 0
IsLost c = (c.wrote ≡ true) × (is_storable c ≡ false)

perform-IsLost : (o : Operation) (c : Capture) → IsLost c → IsLost (perform o c)
unfolding is_storable write flush write_header copied
perform-IsLost o c h = ground arith

perform_all-IsLost : (os : List Operation) (c : Capture) → IsLost c → IsLost (perform_all os c)
unfolding perform_all
perform_all-IsLost [] c h = h
perform_all-IsLost (o ∷ os) c h = perform_all-IsLost os (perform o c) (perform-IsLost o c h)

-- A response whose header goes out with a Set-Cookie, or with another status than 200, is not kept,
-- whatever the handler does after it.
pub set_status-unstored :
    (code : ℕ) (os : List Operation) (c : Capture)
    → c.wrote ≡ false
    → (values set_cookie c.headers ≢ []) ⊎ (code ≢ 200)
    → is_storable (perform_all (set_status code ∷ os) c) ≡ false
unfolding perform_all
set_status-unstored code os c fresh why =
    (perform_all-IsLost os (write_header code c) (lost code c fresh why)).1
  where
    lost :
        (code : ℕ) (c : Capture)
        → c.wrote ≡ false
        → (values set_cookie c.headers ≢ []) ⊎ (code ≢ 200)
        → IsLost (write_header code c)
    lost code c fresh why = unfold write_header is_storable in ground arith
