-- ===== src/Db/Coherence/Tests.antt =====
-- A read, a write that retires its entry, and the read that follows.
use howl_go.Prelude.{ℕ, Bool, true, Bytes, codes}
use howl_go.Db.Coherence.{
  Shared, build_key, load_answer, keep_answer, write_store, retire_keys, finish, start,
}

abbrev whole : Bytes → ℕ → ℕ
whole k store = store

abbrev small : ℕ → Bool
small a = true

abbrev asked : Bytes
asked = codes "get:1"

-- a caller that reads and stores its answer
abbrev read_once : ℕ → ℕ → Shared ℕ ℕ → Shared ℕ ℕ
read_once t v s =
    finish t
      (keep_answer small t v asked s.store (load_answer whole t v asked (build_key t asked s)))

abbrev warm : Shared ℕ ℕ
warm = read_once 1 0 (start 3)

abbrev rewritten : Shared ℕ ℕ
rewritten = retire_keys 2 (write_store 2 5 warm)

abbrev reread : Shared ℕ ℕ
reread = read_once 1 1 rewritten

abbrev stored_now : ℕ
stored_now = 5
