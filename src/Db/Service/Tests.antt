-- ===== src/Db/Service/Tests.antt =====
-- A patch of a document in memory, and the paths of a set-wide one.
use howl_go.Prelude.{ℕ, ◌+◌, true, false, Option, none, some, [], ◌∷◌, codes, Dict, ltb}
use howl_go.Db.Value.{Json, num, str, Fields, end, field, Numbers, get, put}
use howl_go.Db.Filter.{id_path, version_path}
use howl_go.Db.Memdb.{Docs}
use howl_go.Db.Service.{Opts, DocumentType, Backend, World}
use howl_go.Db.Service.Memory.{memory}

abbrev pub numbers : Numbers ℕ
numbers = record { lt = ltb; zero_value = 0; plus_one = λ n. n + 1; int64 = λ n. n }

abbrev version_in : Option (Json ℕ) → ℕ
version_in (some (num n)) = n
version_in _ = 0

-- A document type whose documents are the JSON objects themselves.
abbrev pub plain : DocumentType ℕ (Fields ℕ)
plain = record {
  decode = λ raw. some raw;
  encode = λ doc. some doc;
  envelope = λ doc. record {
    doc_id = [];
    version = version_in (get version_path doc);
    created_at = 0;
    created_by = [];
    updated_at = 0;
    updated_by = [];
    deleted_at = none;
    deleted_by = none;
  };
  set_envelope = λ e doc. doc;
  defaults = λ doc. doc;
  valid = λ doc. true;
  declared = λ name. true;
  stamp = λ n. n;
}

abbrev pub person : ℕ → ℕ → Fields ℕ
person version age =
    field id_path (str (codes "1"))
      (field version_path (num version) (field (codes "age") (num age) end))

abbrev world : World (Docs ℕ)
world = record { store = (codes "1", person 3 36) ∷ []; local = 0 }

abbrev pub in_memory : Backend ℕ (Docs ℕ)
in_memory = memory numbers (λ docs. codes "2")

abbrev as_system : Opts
as_system = record { actor = codes "system"; with_deleted = false; hard = false; session = false }

abbrev birthday : Fields ℕ → Fields ℕ → Option (Fields ℕ)
birthday current raw = some (put (codes "age") (num 37) current)

abbrev given : Dict (Json ℕ)
given = (version_path, num 9) ∷ (codes "age", num 40) ∷ []
