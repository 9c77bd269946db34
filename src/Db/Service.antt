-- ===== src/Db/Service.antt =====
-- db/service.go: the writes of a service, over any backend. The backend's state may move between
-- two calls, as other writers move it, so a call gives a new state even where it reads. A document
-- struct, its JSON encoding and its hooks are the application's and are parameters; so are the
-- clock's readings. Spans, logs and deadlines are left out.
pub mod Single
pub mod Sets
pub mod Writes
pub mod Patching
pub mod Memory
pub mod Reads
pub mod Lists
pub mod Transparent
mod Tests
use howl_go.Prelude.{
  ℕ, zero, suc, ◌+◌, Bool, true, false, not, ◌&&◌, ◌||◌, Option, none, some, List, [], ◌∷◌, Bytes,
  codes, str_eq, Dict, insert, is_nil, is_some, if◌then◌else◌,
}
use howl_go.Db.Value.{Json, null, num, str, obj, Fields, end, field, Numbers}
use howl_go.Db.Filter.{id_path, version_path, deleted_at_path, path_of, active}
use howl_go.Db.Memdb.{UpdateOptions, FindOptions, set_all}
use howl_go.Db.Diff.{diff}

-- The errors of db/errors.go; `refused` is one with a message only, `undecodable` a failure between
-- a document and its JSON, `backend_error` the storage's.
pub data Fail : Type 0 where
  not_found conflict invalid unsupported refused undecodable : Fail
  backend_error : ℕ → Fail

pub data Result {ℓ} (A : Type ℓ) : Type ℓ where
  ok : A → Result A
  failed : Fail → Result A

abbrev pub deleted_by_path : Bytes
deleted_by_path = codes "meta.deleted_by"

abbrev pub updated_at_path : Bytes
updated_at_path = codes "meta.updated_at"

abbrev pub updated_by_path : Bytes
updated_by_path = codes "meta.updated_by"

-- Doc, with its Meta
pub record Envelope : Type 0 where
  pub doc_id : Bytes
  pub version : ℕ
  pub created_at : ℕ
  pub created_by : Bytes
  pub updated_at : ℕ
  pub updated_by : Bytes
  pub deleted_at : Option ℕ
  pub deleted_by : Option Bytes

-- the options of an operation by id; a session only matters by being there
pub record Opts : Type 0 where
  pub actor : Bytes
  pub with_deleted : Bool
  pub hard : Bool
  pub session : Bool

-- A document type: its JSON form, its envelope, its hooks, and the number of a time stamp.
pub record DocumentType (F T : Type 0) : Type 0 where
  pub decode : Fields F → Option T
  pub encode : T → Option (Fields F)
  pub envelope : T → Envelope
  pub set_envelope : Envelope → T → T
  pub defaults : T → T
  pub valid : T → Bool
  pub declared : Bytes → Bool
  pub stamp : ℕ → F

-- The interface Backend over a state, with BulkWriter where the backend has it.
pub record Backend (F S : Type 0) : Type 0 where
  pub new_id : S → Bytes × S
  pub insert_doc : Bytes → Fields F → S → Result (Unit {0}) × S
  pub find_one : Fields F → S → Result (Fields F) × S
  pub find_many : Fields F → FindOptions → S → Result (List (Fields F)) × S
  pub count : Fields F → S → Result ℕ × S
  pub update_paths : Bytes → Dict (Json F) → UpdateOptions → S → Result (Fields F) × S
  pub delete_one : Bytes → S → Result (Fields F) × S
  pub update_paths_where : Option (Fields F → Dict (Json F) → UpdateOptions → S → Result ℕ × S)

-- What the cache of a service does to its version: none, the service's own counter, or a Versioner
-- whose Bump answers whether it succeeded.
pub data Caching (S : Type 0) : Type 0 where
  uncached counted : Caching S
  versioned : (S → Bool × S) → Caching S

pub record World (S : Type 0) : Type 0 where
  pub store : S
  pub local : ℕ

abbrev pub opt_not : Opts → Bool
opt_not o = not o.with_deleted

module _ {W A B : Type 0} where
  -- go on with the value of a call, or give back its error
  abbrev pub after : Result A × W → (A → W → Result B × W) → Result B × W
  after (ok a, w) next = next a w
  after (failed e, w) next = (failed e, w)

  -- the same for a decoding that can fail
  abbrev pub decoded : Option A → W → (A → Result B × W) → Result B × W
  decoded none w next = (failed undecodable, w)
  decoded (some a) w next = next a

module _ {S : Type 0} where
  -- a call of the backend
  abbrev pub called : {A : Type 0} → World S → A × S → A × World S
  called w (a, s) = (a, record w { store = s })

  abbrev bumped : World S → Bool × S → World S
  bumped w (true, s) = record w { store = s }
  bumped w (false, s) = record { store = s; local = w.local + 1 }

  unfoldable pub invalidate : Caching S → Bool → World S → World S
  invalidate uncached session w = w
  invalidate counted session w = if session then w else record w { local = w.local + 1 }
  invalidate (versioned bump) session w = if session then w else bumped w (bump w.store)

abbrev pub patch_attempts : ℕ
patch_attempts = 3

-- FindOptions as bulk gives them
abbrev pub unpaged : FindOptions
unpaged = record { sort = []; limit = 0; skip = 0 }

abbrev pub quiet : UpdateOptions
quiet = record { expected_version = 0; unset = []; no_bump = true }

abbrev pub bumping : UpdateOptions
bumping = record { expected_version = 0; unset = []; no_bump = false }
