-- ===== src/Mw/ResponseCache/Replay.antt =====
-- A kept response is replayed: core/mw/cache.go, over the store of core/cache.
use mathlib.Core.List.{append-nil}
use howl_go.Prelude.{
  ℕ, ◌+◌, ◌≡◌, refl, sym, ap, ◌∙◌, ◌≤◌, ◌<◌, ◌++◌, true, false, Option, none, some, List, [], ◌∷◌,
  Bytes, codes, insert, Free, arith, is_nil,
}
use howl_go.Cache
use howl_go.Cache.Invariant.{get-IsValid}
use howl_go.Cache.{Lru}
use howl_go.Cache.Order.{IsValid}
use howl_go.Cache.Tiers.{lru_store, get-set}
use howl_go.Mw.ResponseCache.{
  Headers, Capture, capture, perform_all, Operation, is_storable, Envelope, Texts, cut_line,
  Response, Request, max_body, store_key, replayed, opened, replay_stored, entry, keep, on_miss,
  hit_or, handler, header_cache,
}
use howl_go.Mw.ResponseCache.Complete.{bytes_of, statuses, is_storable-whole}

cut_line-append :
    (line after : Bytes) → Free 10 line → cut_line (line ++ 10 ∷ after) ≡ some (line, after)
unfolding cut_line
cut_line-append [] after h = refl
cut_line-append (c ∷ line) after h = ground (arith, cut_line-append line after)

module _ (T : Texts) where
  -- what an entry is read back as
  entry-replayed :
      (c : Capture) (at now : ℕ) (h : Headers) (meta value : Bytes)
      → is_storable c ≡ true
      → T.marshal (record { status = c.status; header = c.kept; at = at }) ≡ some meta
      → T.unmarshal meta ≡ some (record { status = c.status; header = c.kept; at = at })
      → Free 10 meta
      → entry T c at ≡ some value
      → replay_stored T value now h
        ≡ some (replayed T (record { status = c.status; header = c.kept; at = at }) c.copy now h)
  unfolding entry replay_stored opened is_storable
  entry-replayed c at now h meta value kept marshalled back plain e =
      ground (arith, marshalled, back, cut_line-append meta c.copy plain)

  module _ (ttl limit : ℕ) (r : Request) where
    -- a request that the cache considers, on a store whose answer is known
    handler-considered :
        (next : Headers → List Operation) (h : Headers) (now at : ℕ) (c : Lru)
        → 0 < ttl
        → r.is_get ≡ true
        → is_nil r.name ≡ false
        → handler T lru_store ttl limit r next h now at c
          ≡ hit_or T lru_store ttl limit
              (Cache.get (store_key T r) now c)
              now
              h
              (on_miss T lru_store ttl limit (store_key T r) next h at)
    unfolding handler
    handler-considered next h now at c long is_get named = ground (arith, long, is_get, named)

    hit_or-missed :
        (p : Option Bytes × Lru) (now : ℕ) (h : Headers) (miss : Lru → Response × Lru)
        → p.0 ≡ none
        → hit_or T lru_store ttl limit p now h miss ≡ miss p.1
    hit_or-missed (none, s) now h miss e = refl
    hit_or-missed (some raw, s) now h miss e = cc

    hit_or-hit :
        (p : Option Bytes × Lru) (now : ℕ) (h : Headers) (miss : Lru → Response × Lru) (raw : Bytes)
        (answer : Response)
        → p.0 ≡ some raw
        → replay_stored T raw now h ≡ some answer
        → (hit_or T lru_store ttl limit p now h miss).0 ≡ answer
    hit_or-hit (none, s) now h miss raw answer e found = cc
    hit_or-hit (some v, s) now h miss raw answer e found = ground (arith, e, found)

    -- the capture of a handler's response
    abbrev pub captured : (Headers → List Operation) → Headers → Capture
    captured next h =
        let before = insert header_cache (codes "miss" ∷ []) h in
        perform_all (next before) (capture before (max_body limit))

    abbrev pub envelope_of : Capture → ℕ → Envelope
    envelope_of c at = record { status = c.status; header = c.kept; at = at }

    keep-set :
        (key : Bytes) (c : Capture) (at : ℕ) (s : Lru) (meta : Bytes)
        → is_storable c ≡ true
        → T.marshal (envelope_of c at) ≡ some meta
        → keep T lru_store ttl limit key c at s ≡ Cache.set key (meta ++ 10 ∷ c.copy) ttl at s
    unfolding keep entry
    keep-set key c at s meta kept marshalled = rw (kept, marshalled) refl

    first_run :
        (next : Headers → List Operation) (h : Headers) (now at : ℕ) (c : Lru) (meta : Bytes)
        → 0 < ttl
        → r.is_get ≡ true
        → is_nil r.name ≡ false
        → (Cache.get (store_key T r) now c).0 ≡ none
        → is_storable (captured next h) ≡ true
        → T.marshal (envelope_of (captured next h) at) ≡ some meta
        → handler T lru_store ttl limit r next h now at c ≡ (
          record { headers = (captured next h).headers; calls = (captured next h).below },
          Cache.set
              (store_key T r)
              (meta ++ 10 ∷ (captured next h).copy)
              ttl
              at
              (Cache.get (store_key T r) now c).1,
        )
    first_run next h now at c meta long is_get named missed kept marshalled =
        handler-considered next h now at c long is_get named
        ∙ hit_or-missed (Cache.get (store_key T r) now c) now h
            (on_miss T lru_store ttl limit (store_key T r) next h at) missed
        ∙ unfold on_miss in
          ap
            (λ (s : Lru).
              (record { headers = (captured next h).headers; calls = (captured next h).below }, s))
            (keep-set (store_key T r) (captured next h) at (Cache.get (store_key T r) now c).1 meta
              kept marshalled)

    second_run :
        (later_next : Headers → List Operation) (later_h : Headers) (kept_copy : Capture)
        (at later later_at : ℕ) (d : Lru) (meta : Bytes)
        → 0 < ttl
        → r.is_get ≡ true
        → is_nil r.name ≡ false
        → IsValid d
        → is_storable kept_copy ≡ true
        → T.marshal (envelope_of kept_copy at) ≡ some meta
        → T.unmarshal meta ≡ some (envelope_of kept_copy at)
        → Free 10 meta
        → later ≤ at + ttl
        → (handler T lru_store ttl limit r later_next later_h later later_at
            (Cache.set (store_key T r) (meta ++ 10 ∷ kept_copy.copy) ttl at d)).0
          ≡ replayed T (envelope_of kept_copy at) kept_copy.copy later later_h
    second_run later_next later_h kept_copy at later later_at d meta long is_get named v kept
          marshalled back plain live =
        let value : Bytes = meta ++ 10 ∷ kept_copy.copy in
        let held : Lru = Cache.set (store_key T r) value ttl at d in
        ap (λ (p : Response × Lru). p.0)
          (handler-considered later_next later_h later later_at held long is_get named)
        ∙ hit_or-hit (Cache.get (store_key T r) later held) later later_h
            (on_miss T lru_store ttl limit (store_key T r) later_next later_h later_at) value _
            (get-set (store_key T r) value ttl at later d v live)
            (entry-replayed kept_copy at later later_h meta value kept marshalled back plain
              (unfold entry in rw (entry, marshalled) refl))

    storable-status : (kept_copy : Capture) → is_storable kept_copy ≡ true → kept_copy.status ≡ 200
    unfolding is_storable
    storable-status kept_copy kept = ground arith

    -- A response that was kept answers the next request of its key for as long as it lives, whatever the
    -- handler would do by then: the client gets the status 200 and the very bytes that the first one
    -- was sent. The first request finds no entry and its response is storable; the cache holds one
    -- entry at least; the envelope is read back from its JSON, which has no line feed.
    pub handler-replays :
        (next later_next : Headers → List Operation) (h later_h : Headers)
        (now at later later_at : ℕ) (c : Lru) (meta : Bytes)
        → 0 < ttl
        → r.is_get ≡ true
        → is_nil r.name ≡ false
        → IsValid c
        → (Cache.get (store_key T r) now c).0 ≡ none
        → is_storable (captured next h) ≡ true
        → T.marshal (envelope_of (captured next h) at) ≡ some meta
        → T.unmarshal meta ≡ some (envelope_of (captured next h) at)
        → Free 10 meta
        → later ≤ at + ttl
        → (first : Response) (c' : Lru)
        → handler T lru_store ttl limit r next h now at c ≡ (first, c')
        → (statuses (handler T lru_store ttl limit r later_next later_h later later_at c').0.calls
            ≡ 200 ∷ [])
          × (bytes_of (handler T lru_store ttl limit r later_next later_h later later_at c').0.calls
              ≡ bytes_of first.calls)
    handler-replays next later_next h later_h now at later later_at c meta long is_get named v
          missed kept marshalled back plain live first c' ran =
        let kept_copy = captured next h in
        let d = (Cache.get (store_key T r) now c).1 in
        let both =
          sym (first_run next h now at c meta long is_get named missed kept marshalled) ∙ ran in
        let again =
          second_run later_next later_h kept_copy at later later_at d meta long is_get named
            (get-IsValid (store_key T r) now c v) kept marshalled back plain live in
        let whole =
          is_storable-whole (next (insert header_cache (codes "miss" ∷ []) h))
            (insert header_cache (codes "miss" ∷ []) h) (max_body limit) kept_copy refl kept in
        let calls : kept_copy.below ≡ first.calls = ap (λ (p : Response × Lru). p.0.calls) both in
        let stored = ap (λ (p : Response × Lru). p.1) both in
        rw (← stored, again)
          (
            ap (λ (n : ℕ). n ∷ []) (storable-status kept_copy kept),
            append-nil kept_copy.copy ∙ sym whole.2 ∙ ap bytes_of calls,
          )
