-- ===== src/Mw/ResponseCache.antt =====
-- core/mw/cache.go: the cache of responses. A header map holds canonical names; the writer below is
-- the list of its calls (Mw/Recorder.antt), and a handler is what it does to the map and the writer.
-- The store is any of core/cache, a request enters by its method, its key and the values of the Vary
-- headers, and sha256, encoding/json of the envelope and strconv are parameters.
pub mod Complete
pub mod Replay
mod Tests
use howl_go.Prelude.{
  ℕ, zero, suc, ◌+◌, ◌-◌, ◌*◌, ◌++◌, Bool, true, false, not, ◌&&◌, ◌||◌, Option, none, some, List,
  [], ◌∷◌, Bytes, codes, str_eq, Dict, lookup, insert, delete, length, is_nil, ltb, ◌==◌,
  if◌then◌else◌,
}
use howl_go.Cache.Tiers.{Store}
use howl_go.Mw.Recorder.{Call, header, body, flushed}

abbrev pub Headers : Type 0
Headers = Dict (List Bytes)

abbrev pub header_cache : Bytes
header_cache = codes "X-Howl-Cache"

abbrev pub set_cookie : Bytes
set_cookie = codes "Set-Cookie"

abbrev pub status_ok : ℕ
status_ok = 200

-- h[k], nil where it is absent
unfoldable pub values : Bytes → Headers → List Bytes
values k h = elim (lookup k h) [ none ↦ [] | some vs ↦ vs ]

-- slices.Equal
unfoldable pub same_values : List Bytes → List Bytes → Bool
same_values [] [] = true
same_values (a ∷ s) (b ∷ t) = str_eq a b && same_values s t
same_values _ _ = false

unfoldable pub added : Headers → Headers → Headers
added before [] = []
added before ((k, vs) ∷ after) =
    let rest = added before after in
    if str_eq k header_cache || same_values (values k before) vs then rest else (k, vs) ∷ rest

-- capture, with the header map that it shares with the writer below
pub record Capture : Type 0 where
  pub below : List Call
  pub headers : Headers
  pub before : Headers
  pub kept : Headers
  pub status : ℕ
  pub cookie : Bool
  pub wrote : Bool
  pub copy : Bytes
  pub max : ℕ
  pub skip : Bool

unfoldable pub capture : Headers → ℕ → Capture
capture headers max = record {
  below = [];
  headers = headers;
  before = headers;
  kept = [];
  status = 0;
  cookie = false;
  wrote = false;
  copy = [];
  max = max;
  skip = false;
}

unfoldable pub write_header : ℕ → Capture → Capture
write_header code c = if c.wrote then c else record c {
  wrote = true;
  status = code;
  cookie = not (is_nil (values set_cookie c.headers));
  kept = added c.before c.headers;
  below = c.below ++ header code ∷ [];
}

abbrev pub started : Capture → Capture
started c = if c.wrote then c else write_header status_ok c

-- the copy of the body, unless it is skipped or passes the limit
unfoldable pub copied : Bytes → Capture → Capture
copied b c =
    if c.skip
    then c
    else if ltb c.max (length c.copy + length b)
    then record c { skip = true; copy = [] }
    else record c { copy = c.copy ++ b }

abbrev pub pass : Call → Capture → Capture
pass call c = record c { below = c.below ++ call ∷ [] }

unfoldable pub write : Bytes → Capture → Capture
write b c = pass (body b) (copied b (started c))

unfoldable pub flush : Capture → Capture
flush c = pass flushed (started (record c { skip = true }))

-- what a handler does
pub data Operation : Type 0 where
  set_header : Bytes → List Bytes → Operation
  drop_header : Bytes → Operation
  set_status : ℕ → Operation
  send : Bytes → Operation
  push : Operation

abbrev pub perform : Operation → Capture → Capture
perform (set_header k vs) c = record c { headers = insert k vs c.headers }
perform (drop_header k) c = record c { headers = delete k c.headers }
perform (set_status code) c = write_header code c
perform (send b) c = write b c
perform push c = flush c

unfoldable pub perform_all : List Operation → Capture → Capture
perform_all [] c = c
perform_all (o ∷ os) c = perform_all os (perform o c)

-- the response is kept
unfoldable pub is_storable : Capture → Bool
is_storable c = c.wrote && (c.status == status_ok) && not c.cookie && not c.skip

-- stored, the envelope in front of a body
pub record Envelope : Type 0 where
  pub status : ℕ
  pub header : Headers
  pub at : ℕ

-- encoding/json of an envelope, and the texts of strconv and sha256
pub record Texts : Type 0 where
  pub marshal : Envelope → Option Bytes
  pub unmarshal : Bytes → Option Envelope
  pub itoa : ℕ → Bytes
  pub digest : Bytes → Bytes

-- bytes.IndexByte of the line feed, with what stands before and after it
unfoldable pub cut_line : Bytes → Option (Bytes × Bytes)
cut_line [] = none
cut_line (c ∷ s) =
    let rest = cut_line s in
    if c == 10
    then some ([], s)
    else elim rest [ none ↦ none | some (line, after) ↦ some (c ∷ line, after) ]

unfoldable pub set_all : Headers → Headers → Headers
set_all [] h = h
set_all ((k, vs) ∷ more) h = set_all more (insert k vs h)

-- the calls and the header map of a handler that has the writer itself
unfoldable pub direct : List Operation → Headers → List Call → Headers × List Call
direct [] h calls = (h, calls)
direct (set_header k vs ∷ os) h calls = direct os (insert k vs h) calls
direct (drop_header k ∷ os) h calls = direct os (delete k h) calls
direct (set_status code ∷ os) h calls = direct os h (calls ++ header code ∷ [])
direct (send b ∷ os) h calls = direct os h (calls ++ body b ∷ [])
direct (push ∷ os) h calls = direct os h (calls ++ flushed ∷ [])

-- A response as the client has it: the header map, and the calls of the writer.
pub record Response : Type 0 where
  pub headers : Headers
  pub calls : List Call

-- a request: its method, what Key gives, and the values of the Vary headers
pub record Request : Type 0 where
  pub is_get : Bool
  pub name : Bytes
  pub vary : List Bytes

abbrev vary_text : List Bytes → Bytes
vary_text [] = []
vary_text (v ∷ vs) = 0 ∷ (v ++ vary_text vs)

-- the largest body, 8 MiB where none is given
abbrev pub max_body : ℕ → ℕ
max_body zero = 8388608
max_body n = n

module _ (T : Texts) where
  unfoldable pub store_key : Request → Bytes
  store_key r = codes "howl:http:" ++ T.digest (r.name ++ vary_text r.vary)

  -- the response that an envelope and a body give
  abbrev pub replayed : Envelope → Bytes → ℕ → Headers → Response
  replayed meta after now h = record {
    headers =
        insert header_cache (codes "hit" ∷ [])
          (insert (codes "Age") (T.itoa (now - meta.at) ∷ []) (set_all meta.header h));
    calls = header meta.status ∷ body after ∷ [];
  }

  -- the envelope of an entry, if it is one
  unfoldable pub opened : Bytes → Option (Envelope × Bytes)
  opened raw = elim (cut_line raw) [
    | none ↦ none
    | some (line, after) ↦ elim (T.unmarshal line) [
      | none ↦ none
      | some meta ↦ if meta.status == 0 then none else some (meta, after)
    ]
  ]

  unfoldable pub replay_stored : Bytes → ℕ → Headers → Option Response
  replay_stored raw now h = elim (opened raw) [
    | none ↦ none
    | some (meta, after) ↦ some (replayed meta after now h)
  ]

  -- the entry of a captured response
  unfoldable pub entry : Capture → ℕ → Option Bytes
  entry c at = elim (T.marshal (record { status = c.status; header = c.kept; at = at })) [
    | none ↦ none
    | some meta ↦ some (meta ++ 10 ∷ c.copy)
  ]

  module _ {S : Type 0} (store : Store S) (ttl limit : ℕ) where
    -- after the handler has run, at its time: the entry is kept, if there is one
    unfoldable pub keep : Bytes → Capture → ℕ → S → S
    keep key c at s =
        if is_storable c
        then elim (entry c at) [ none ↦ s | some value ↦ store.set key value ttl at s ]
        else s

    -- the part of the handler after a miss
    unfoldable pub on_miss : Bytes → (Headers → List Operation) → Headers → ℕ → S → Response × S
    on_miss key next h at s =
        let before = insert header_cache (codes "miss" ∷ []) h in
        let c = perform_all (next before) (capture before (max_body limit)) in
        (record { headers = c.headers; calls = c.below }, keep key c at s)

    -- a hit that can be read, or a miss
    abbrev pub hit_or : Option Bytes × S → ℕ → Headers → (S → Response × S) → Response × S
    hit_or (none, s) now h miss = miss s
    hit_or (some raw, s) now h miss = elim (replay_stored raw now h) [
      | none ↦ miss s
      | some r ↦ (r, s)
    ]

    -- the handler that runs without the cache
    abbrev pub plain : (Headers → List Operation) → Headers → S → Response × S
    plain next h s =
        let (headers, calls) = direct (next h) h [] in
        (record { headers = headers; calls = calls }, s)

    -- the handler, at the time of the request and at the time when its own handler is done
    unfoldable pub handler :
        Request → (Headers → List Operation) → Headers → ℕ → ℕ → S → Response × S
    handler r next h now at s =
        if (ttl == 0) || not r.is_get || is_nil r.name
        then plain next h s
        else hit_or (store.get (store_key r) now s) now h (on_miss (store_key r) next h at)
