-- ===== src/Db/Service/Single.antt =====
-- Create, Patch, PatchFields, Delete and Restore of db/service.go.
use howl_go.Prelude.{
  ℕ, zero, suc, Bool, true, false, not, Option, none, some, List, [], ◌∷◌, Bytes, Dict, is_nil,
  is_some, if◌then◌else◌,
}
use howl_go.Db.Value.{Json, null, num, str, Fields, end, field, Numbers}
use howl_go.Db.Filter.{id_path, deleted_at_path, active}
use howl_go.Db.Memdb.{set_all}
use howl_go.Db.Diff.{diff}
use howl_go.Db.Service.{
  not_found, conflict, invalid, Result, ok, failed, deleted_by_path, updated_at_path,
  updated_by_path, Envelope, Opts, DocumentType, Backend, Caching, World, after, decoded, called,
  invalidate, patch_attempts, quiet, bumping,
}

module _ {F S T : Type 0} (N : Numbers F) (D : DocumentType F T) (B : Backend F S)
    (C : Caching S) where
  abbrev pub by_id : Bytes → Bool → Fields F
  by_id id with_deleted =
      let where_id : Fields F = field id_path (str id) end in
      if not with_deleted then active where_id else where_id

  -- what Create stamps
  abbrev pub fresh_envelope : Bytes → ℕ → Opts → Envelope
  fresh_envelope id now o = record {
    doc_id = id;
    version = 1;
    created_at = now;
    created_by = o.actor;
    updated_at = now;
    updated_by = o.actor;
    deleted_at = none;
    deleted_by = none;
  }

  -- Create, given the document and the id that NewID gave
  unfoldable pub create_with : Bytes → T → ℕ → Opts → World S → Result T × World S
  unfolding invalidate
  create_with id doc now o w =
      let made = D.defaults (D.set_envelope (fresh_envelope id now o) doc) in
      if not (D.valid made)
      then (failed invalid, w)
      else decoded (D.encode made) w (λ raw.
        after (called w (B.insert_doc (D.envelope made).doc_id raw w.store))
          (λ done w'. (ok made, invalidate C o.session w')))

  abbrev create_from : T → ℕ → Opts → World S → Bytes × S → Result T × World S
  create_from doc now o w (id, s) = create_with id doc now o (record w { store = s })

  unfoldable pub create : T → ℕ → Opts → World S → Result T × World S
  unfolding create_with
  create doc now o w = create_from doc now o w (B.new_id w.store)

  -- the end of an operation that answers with the stored document
  abbrev pub answer : Opts → Fields F → World S → Result T × World S
  answer o stored w =
      let w' = invalidate C o.session w in decoded (D.decode stored) w' (λ doc. (ok doc, w'))

  -- what the update's answer leads to: no row matched is tried again
  abbrev pub written :
      Opts → (World S → Result T × World S) → Result (Fields F) × World S → Result T × World S
  written o retry (ok stored, w) = answer o stored w
  written o retry (failed not_found, w) = retry w
  written o retry (failed e, w) = (failed e, w)

  -- the envelope of the document read, with the patch's own stamp
  abbrev pub patched_envelope : T → ℕ → Opts → Envelope
  patched_envelope current now o = record (D.envelope current) {
    updated_at = now;
    updated_by = o.actor;
  }

  -- the write of one attempt, from the document read and the JSON that is to replace it
  abbrev pub patch_write :
      Bytes
      → Opts
      → ℕ
      → (World S → Result T × World S)
      → World S
      → Dict (Json F) × List Bytes
      → Result T × World S
  patch_write id o version retry w (set, unset) = written o retry (
      called w (
        B.update_paths id set
          (record { expected_version = version; unset = unset; no_bump = false }) w.store))

  -- an attempt after its read
  unfoldable pub patch_read :
      (T → Fields F → Option T)
      → Bytes
      → Opts
      → ℕ
      → (World S → Result T × World S)
      → Fields F
      → World S
      → Result T × World S
  unfolding diff
  patch_read produce id o now retry raw w = decoded (D.decode raw) w (λ current.
      decoded (produce current raw) w (λ updated.
        let stamped = D.set_envelope (patched_envelope current now o) updated in
        if not (D.valid stamped)
        then (failed invalid, w)
        else decoded (D.encode stamped) w (λ next.
          decoded (diff N (some raw) (some next) D.declared) w
            (patch_write id o (D.envelope current).version retry w))))

  -- the loop of patch over the attempts that are left, with the clock's reading at each
  unfoldable pub patch_loop :
      (T → Fields F → Option T) → Bytes → Opts → (ℕ → ℕ) → ℕ → World S → Result T × World S
  unfolding patch_read
  patch_loop produce id o clock zero w = (failed conflict, w)
  patch_loop produce id o clock (suc left) w =
      after (called w (B.find_one (by_id id o.with_deleted) w.store))
        (patch_read produce id o (clock left) (patch_loop produce id o clock left))

  unfoldable pub patch :
      (T → Fields F → Option T) → Bytes → Opts → (ℕ → ℕ) → World S → Result T × World S
  unfolding patch_loop
  patch produce id o clock w =
      if is_nil id then (failed not_found, w) else patch_loop produce id o clock patch_attempts w

  -- PatchFields: applySet, then the decoding
  unfoldable pub patch_fields :
      Bytes → Dict (Json F) → Opts → (ℕ → ℕ) → World S → Result T × World S
  unfolding patch set_all
  patch_fields id values o clock w =
      patch (λ current raw. D.decode (set_all values raw)) id o clock w

  -- the paths of a soft delete
  abbrev pub delete_paths : ℕ → Opts → Dict (Json F)
  delete_paths now o = (deleted_at_path, num (D.stamp now)) ∷ (deleted_by_path, str o.actor) ∷ []

  abbrev pub gone : Opts → Fields F → World S → Result (Unit {0}) × World S
  gone o doc w = (ok tt, invalidate C o.session w)

  -- Delete
  unfoldable pub delete : Bytes → Opts → ℕ → World S → Result (Unit {0}) × World S
  unfolding invalidate active
  delete id o now w =
      if is_nil id
      then (failed not_found, w)
      else if o.hard
      then after (called w (B.delete_one id w.store)) (gone o)
      else after (called w (B.find_one (by_id id false) w.store)) (λ found w'.
        after (called w' (B.update_paths id (delete_paths now o) quiet w'.store)) (gone o))

  abbrev pub restore_paths : ℕ → Opts → Dict (Json F)
  restore_paths now o =
      (deleted_at_path, null)
      ∷ (deleted_by_path, null)
      ∷ (updated_at_path, num (D.stamp now))
      ∷ (updated_by_path, str o.actor)
      ∷ []

  -- Restore
  unfoldable pub restore : Bytes → Opts → ℕ → World S → Result T × World S
  unfolding invalidate
  restore id o now w =
      if is_nil id
      then (failed not_found, w)
      else after (called w (B.find_one (by_id id true) w.store)) (λ raw w'.
        decoded (D.decode raw) w' (λ current.
          if not (is_some (D.envelope current).deleted_at)
          then (ok current, w')
          else after (called w' (B.update_paths id (restore_paths now o) bumping w'.store))
              (answer o)))
