-- ===== src/Db/Service/Memory.antt =====
-- The backend in memory (db/memdb/memdb.go) as the interface that a service takes. The ids that
-- NewID draws are a parameter.
use howl_go.Prelude.{some, Bytes}
use howl_go.Db.Value.{Numbers}
use howl_go.Db.Memdb.{
  Reply, Docs, insert_doc, delete_one, find_one, find_many, count, update_paths, update_paths_where,
}
use howl_go.Db.Service.{not_found, undecodable, Result, ok, failed, Backend}

abbrev result_of : {A : Type 0} → Reply A → Result A
result_of (Reply.ok a) = ok a
result_of Reply.not_found = failed not_found
result_of Reply.invalid = failed undecodable

abbrev replied : {A S : Type 0} → Reply A × S → Result A × S
replied (r, s) = (result_of r, s)

abbrev fine : {A S : Type 0} → A × S → Result A × S
fine (a, s) = (ok a, s)

module _ {F : Type 0} (N : Numbers F) (fresh : Docs F → Bytes) where
  abbrev pub memory : Backend F (Docs F)
  memory = record {
    new_id = λ docs. (fresh docs, docs);
    insert_doc = λ id doc docs. replied (insert_doc id (some doc) docs);
    find_one = λ filter docs. (result_of (find_one N filter docs), docs);
    find_many = λ filter o docs. (ok (find_many N filter o docs), docs);
    count = λ filter docs. (ok (count N filter docs), docs);
    update_paths = λ id paths o docs. replied (update_paths N id paths o docs);
    delete_one = λ id docs. replied (delete_one id docs);
    update_paths_where =
        some (λ filter paths o docs. fine (update_paths_where N filter paths o docs));
  }
