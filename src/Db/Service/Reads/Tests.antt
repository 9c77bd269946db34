-- ===== src/Db/Service/Reads/Tests.antt =====
-- A document that is read twice, and keys of two versions.
use howl_go.Prelude.{
  ℕ, zero, suc, ◌+◌, ◌≡◌, refl, true, false, some, none, [], ◌∷◌, Bytes, codes, lookup, str_eq,
  has_prefix, split, arith,
}
use howl_go.Cache
use howl_go.Cache.{Lru, new_lru}
use howl_go.Cache.Invariant.{new_lru-IsValid}
use howl_go.Db.Value.{end, Fields, get, put, get_path, str_compare}
use howl_go.Db.Filter.{active, matches, field_matches, operators, equal, compare}
use howl_go.Db.Memdb.{Docs, find_one, sorted_ids, doc_at}
use howl_go.Db.Service.{ok, Result, Opts}
use howl_go.Db.Service.Tests.{plain, in_memory, person}
use howl_go.Db.Service.Reads
use howl_go.Db.Service.Reads.{Texts, Reader, Query, Setup, space}
use howl_go.Cache.Tiers.{Store}
use howl_go.Db.Service.Reads.Cached.{in_process, cacheable, get-again}

abbrev ones : ℕ → Bytes
ones zero = []
ones (suc n) = b'1' ∷ ones n

abbrev one_document : Texts ℕ
one_document = record {
  show = λ doc. codes "doc";
  parse = λ text. some (person 3 36);
  show_rows = λ rows. none;
  parse_rows = λ text. none;
  digest = λ q. codes "q";
  itoa = ones;
  parse_int = λ text. none;
}

abbrev reader : Reader (Docs ℕ) Lru
reader = record {
  backend = (codes "1", person 3 36) ∷ [];
  cache = new_lru 10;
  local = 0;
  hits = 0;
  misses = 0;
  bypassed = 0;
  too_large = 0;
}

abbrev read_person : (now at : ℕ) → Reader (Docs ℕ) Lru → Result (Fields ℕ) × Reader (Docs ℕ) Lru
read_person now at s =
    Reads.get plain in_memory (in_process 60 100 true (codes "mem") (codes "users")) one_document
      (codes "1") (cacheable (codes "system") false) now at s

get-again_example :
    (s' : Reader (Docs ℕ) Lru) × (s'' : Reader (Docs ℕ) Lru) × (read_person 5 6 reader
      ≡ (ok (person 3 36), s'))
    × (read_person 20 21 s' ≡ (ok (person 3 36), s''))
    × (s''.backend ≡ s'.backend)
    × (s''.hits ≡ s'.hits + 1)
    × (s''.misses ≡ s'.misses)
unfolding find_one sorted_ids matches active has_prefix field_matches operators equal get_path split
    doc_at lookup compare get put str_eq str_compare new_lru Cache.get
get-again_example =
    get-again plain in_memory one_document 60 100 true (codes "mem") (codes "users")
      (codes "system") false (codes "1") 5 6 20 21 reader (person 3 36) (person 3 36) reader.backend
      refl (new_lru-IsValid 10) refl refl refl refl refl (omega arith)

-- a cache that holds nothing
abbrev no_store : Store Lru
no_store = record {
  get = λ key now s. (none, s);
  set = λ key value ttl now s. s;
  del = λ keys s. s;
}

abbrev without_entries : Setup Lru
without_entries = record {
  adapter = no_store;
  version = some (λ c. (none, c));
  ttl = 60;
  max_entry = 100;
  gets = true;
  finds = true;
  prefix = codes "mem";
  name = codes "users";
}

abbrev everyone : Query ℕ
everyone = record {
  where_ = end;
  sort = [];
  limit = 0;
  skip = 0;
  project = [];
  with_deleted = false;
  session = false;
}

abbrev as_system : Opts
as_system = cacheable (codes "system") false
