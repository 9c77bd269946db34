-- ===== src/Cache/Tests.antt =====
-- The theorems on core/cache/cache.go at a store of one entry.
use howl_go.Prelude.{◌≡◌, codes}
use howl_go.Cache.{Lru, new_lru, get, set}
use howl_go.Cache.Order.{IsValid}
use howl_go.Cache.Invariant.{new_lru-IsValid, set-IsValid}
use howl_go.Cache.Refinement.{view, read, write, get-read, set-write}

abbrev one_entry : Lru
one_entry = set (codes "a") (codes "1") 10 5 (new_lru 2)

one_entry-IsValid : IsValid one_entry
one_entry-IsValid = set-IsValid (codes "a") (codes "1") 10 5 (new_lru 2) (new_lru-IsValid 2)

get-read_example :
    ((get (codes "a") 7 one_entry).0 ≡ (read (codes "a") 7 (view one_entry)).0)
    × (view (get (codes "a") 7 one_entry).1 ≡ (read (codes "a") 7 (view one_entry)).1)
get-read_example = get-read one_entry one_entry-IsValid (codes "a") 7

set-write_example :
    view (set (codes "b") (codes "2") 10 7 one_entry)
    ≡ write (codes "b") (codes "2") 17 one_entry.max (view one_entry)
set-write_example = set-write one_entry one_entry-IsValid (codes "b") (codes "2") 10 7

set-IsValid_example : IsValid (set (codes "a") (codes "1") 10 5 (new_lru 2))
set-IsValid_example = set-IsValid (codes "a") (codes "1") 10 5 (new_lru 2) (new_lru-IsValid 2)
