-- ===== src/Db/Service/Transparent.antt =====
-- A cache that answers nothing changes no answer: db/service.go.
use howl_go.Prelude.{ℕ, ◌≡◌, none, List, Bytes}
use howl_go.Db.Service.{Result, Opts, DocumentType, Backend, after}
use howl_go.Db.Service.Reads.{Query, Texts, Setup, Reader, asked, loaded, get_where, get}
use howl_go.Db.Service.Lists.{find_rows, all_decoded}

module _ {F S T K : Type 0} (D : DocumentType F T) (B : Backend F S) (C : Setup K) (X : Texts F)
    (silent : (k : Bytes) (now : ℕ) (c : K) → (C.adapter.get k now c).0 ≡ none) where
  -- only the answer of a read
  abbrev Same : {A : Type 0} → Result A × Reader S K → Result A × Reader S K → Type 0
  Same p q = p.0 ≡ q.0

  abbrev pub uncached_get : Bytes → Opts → ℕ → Reader S K → Result T × Reader S K
  uncached_get id o at s =
      loaded D B C X none at
        (asked D B C X s (B.find_one (get_where D B C X id o.with_deleted) s.backend))

  abbrev pub uncached_find : Query F → Reader S K → Result (List T) × Reader S K
  uncached_find q s = after (find_rows D B C X q s) (all_decoded D B C X)
