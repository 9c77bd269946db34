-- ===== src/Db/Uuid/Tests.antt =====
-- Two ids of one millisecond.
use howl_go.Prelude.{◌≤◌, ◌≡◌, [], ◌∷◌, arith}
use howl_go.Db.Value.{less, str_compare}
use howl_go.Db.Uuid.{Clock, tick, Random, new_id}
use howl_go.Db.Uuid.Ordering.{new_id-tick}

abbrev clock : Clock
clock = record { millis = 1700000000000; seq = 4095 }

abbrev high : Random
high = record { eighth = 255; ninth = 255; node = 255 ∷ [] }

abbrev low : Random
low = record { eighth = 0; ninth = 0; node = 0 ∷ [] }

new_id-tick_example :
    (str_compare (new_id clock high) (new_id (tick 1700000000000 clock) low) ≡ less)
    × ((tick 1700000000000 clock).seq ≤ 4095)
new_id-tick_example =
    new_id-tick 1700000000000 clock high low (omega arith) (unfold tick in omega arith)
