-- ===== src/Mw/ResponseCache/Tests.antt =====
-- A page that is kept and replayed.
use howl_go.Prelude.{
  ◌+◌, ◌-◌, ◌≡◌, ◌≤◌, refl, true, false, Option, some, none, List, [], ◌∷◌, Bytes, codes, insert,
  lookup, str_eq, length, arith,
}
use howl_go.Cache
use howl_go.Cache.{Lru, new_lru}
use howl_go.Cache.Invariant.{new_lru-IsValid}
use howl_go.Cache.Tiers.{lru_store}
use howl_go.Mw.ResponseCache.{
  Headers, Capture, capture, write_header, copied, write, flush, values, added, same_values,
  Operation, send, push, perform_all, is_storable, set_cookie, Envelope, Texts, Request, Response,
  store_key, handler, header_cache,
}
use howl_go.Mw.ResponseCache.Complete.{statuses, bytes_of, flushes, is_storable-whole}
use howl_go.Mw.ResponseCache.Replay.{captured, handler-replays}

-- an encoding of envelopes without headers
abbrev read_envelope : Bytes → Option Envelope
read_envelope (s ∷ t ∷ []) = some (record { status = s; header = []; at = t - 11 })
read_envelope _ = none

abbrev plain_texts : Texts
plain_texts = record {
  marshal = λ e. some (e.status ∷ (e.at + 11) ∷ []);
  unmarshal = read_envelope;
  itoa = λ n. n ∷ [];
  digest = λ s. s;
}

abbrev page : Headers → List Operation
page h = send (codes "he") ∷ send (codes "llo") ∷ []

abbrev stream : Headers → List Operation
stream h = send (codes "he") ∷ push ∷ []

abbrev home : Request
home = record { is_get = true; name = codes "/"; vary = [] }

abbrev empty : Lru
empty = new_lru 10

abbrev page_kept : Capture
page_kept = captured plain_texts 60 0 home page []

abbrev streamed : Capture
streamed = captured plain_texts 60 0 home stream []

stream_unkept : is_storable streamed ≡ false
unfolding is_storable perform_all capture write write_header copied flush added values insert lookup
    str_eq
stream_unkept = refl

page_storable : is_storable page_kept ≡ true
unfolding is_storable perform_all capture write write_header copied added values same_values insert
    lookup str_eq
page_storable = refl

is_storable-whole_example :
    (statuses page_kept.below ≡ 200 ∷ [])
    × (flushes page_kept.below ≡ 0)
    × (bytes_of page_kept.below ≡ page_kept.copy)
    × (length page_kept.copy ≤ page_kept.max)
is_storable-whole_example =
    is_storable-whole (page []) (insert header_cache (codes "miss" ∷ []) []) 8388608 page_kept refl
      page_storable

abbrev logged_in : Capture
logged_in = capture ((set_cookie, codes "sid=1" ∷ []) ∷ []) 100

abbrev after_page : Response × Lru
after_page = handler plain_texts lru_store 60 0 home page [] 5 7 empty

handler-replays_example :
    (statuses (handler plain_texts lru_store 60 0 home stream [] 20 21 after_page.1).0.calls
      ≡ 200 ∷ [])
    × (bytes_of (handler plain_texts lru_store 60 0 home stream [] 20 21 after_page.1).0.calls
        ≡ bytes_of after_page.0.calls)
unfolding perform_all capture write write_header copied added values same_values insert lookup
    str_eq new_lru Cache.get store_key
handler-replays_example =
    handler-replays plain_texts 60 0 home page stream [] [] 5 7 20 21 empty (200 ∷ 18 ∷ [])
      (omega arith) refl refl (new_lru-IsValid 10) refl page_storable refl refl (omega arith)
      (omega arith) after_page.0 after_page.1 refl
