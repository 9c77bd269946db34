-- ===== src/Db/Service/Patching.antt =====
-- What a patch of db/service.go writes.
use howl_go.Prelude.{ℕ, ◌≡◌, ◌⊎◌, true, false, Option, some, List, Bytes, Dict}
use howl_go.Db.Value.{Json, Fields, Numbers}
use howl_go.Db.Memdb.{UpdateOptions}
use howl_go.Db.Diff.{diff}
use howl_go.Db.Service.{Result, ok, Opts, DocumentType, Backend, Caching, World}
use howl_go.Db.Service.Single.{by_id, patched_envelope}

module _ {F S T : Type 0} (N : Numbers F) (D : DocumentType F T) (B : Backend F S)
    (C : Caching S) where
  -- One attempt's read and write: the document that is answered is what the backend stored for one
  -- update under the version that was read, and the update is the difference between the document
  -- read and the caller's new one with the envelope read and the patch's stamp.
  pub record Wrote (produce : T → Fields F → Option T) (id : Bytes) (o : Opts) (doc : T)
      : Type 0 where
    pub before : S
    pub middle : S
    pub raw : Fields F
    pub current : T
    pub updated : T
    pub now : ℕ
    pub next : Fields F
    pub update : Dict (Json F) × List Bytes
    pub stored : Fields F
    pub read : (B.find_one (by_id N D B C id o.with_deleted) before).0 ≡ ok raw
    pub is_current : D.decode raw ≡ some current
    pub is_updated : produce current raw ≡ some updated
    pub checked : D.valid (D.set_envelope (patched_envelope N D B C current now o) updated) ≡ true
    pub is_next :
        D.encode (D.set_envelope (patched_envelope N D B C current now o) updated) ≡ some next
    pub is_update : diff N (some raw) (some next) D.declared ≡ some update
    pub locked :
        (B.update_paths id update.0
          (record {
            expected_version = (D.envelope current).version;
            unset = update.1;
            no_bump = false;
          })
          middle).0
        ≡ ok stored
    pub answered : D.decode stored ≡ some doc

  module _ (produce : T → Fields F → Option T) (id : Bytes) (o : Opts) (now : ℕ)
      (retry : World S → Result T × World S) (before : S) (raw : Fields F) (doc : T)
      (read : (B.find_one (by_id N D B C id o.with_deleted) before).0 ≡ ok raw) where
    abbrev Outcome : Type 0
    Outcome = Wrote produce id o doc ⊎ ((w : World S) × ((retry w).0 ≡ ok doc))

    abbrev options_for : T → List Bytes → UpdateOptions
    options_for current unset = record {
      expected_version = (D.envelope current).version;
      unset = unset;
      no_bump = false;
    }
