-- ===== src/Db/Uuid.antt =====
-- db/uuid.go: ids in the order of their creation. The clock's reading and the random bytes are
-- arguments; a time before 1970 is not given.
pub mod Ordering
mod Tests
use howl_go.Prelude.{ℕ, ◌+◌, ◌/◌, ◌%◌, Bool, List, [], ◌∷◌, Bytes, ltb, leb, if◌then◌else◌}

-- the variable `clock`
pub record Clock : Type 0 where
  pub millis : ℕ
  pub seq : ℕ

unfoldable pub tick : ℕ → Clock → Clock
tick now c =
    if ltb c.millis now
    then record { millis = now; seq = 0 }
    else if leb 0x0FFF c.seq
    then record { millis = c.millis + 1; seq = 0 }
    else record c { seq = c.seq + 1 }

-- encoding/hex on a half of a byte
unfoldable pub hex_digit : ℕ → ℕ
hex_digit n = if ltb n 10 then b'0' + n else 87 + n

-- the two digits of a byte before what follows
unfoldable pub hex_byte : ℕ → Bytes → Bytes
unfolding hex_digit
hex_byte b rest = hex_digit (b / 16) ∷ hex_digit (b % 16) ∷ rest

-- the random bytes of an id, from the ninth on
pub record Random : Type 0 where
  pub eighth : ℕ
  pub ninth : ℕ
  pub node : List ℕ

abbrev hex_all : List ℕ → Bytes
hex_all [] = []
hex_all (b ∷ bs) = hex_byte b (hex_all bs)

-- the digits after the time
unfoldable pub id_tail : ℕ → Random → Bytes
unfolding hex_byte
id_tail seq r =
    b'-'
    ∷ hex_byte (0x70 + seq / 256 % 16) (
        hex_byte (seq % 256)
          (b'-' ∷ hex_byte (0x80 + r.eighth % 64) (hex_byte r.ninth (b'-' ∷ hex_all r.node))))

-- NewID after its tick
unfoldable pub new_id : Clock → Random → Bytes
unfolding hex_byte id_tail
new_id c r = hex_byte (c.millis / 1099511627776 % 256) (
    hex_byte (c.millis / 4294967296 % 256) (
      hex_byte (c.millis / 16777216 % 256) (
        hex_byte (c.millis / 65536 % 256)
          (b'-' ∷ hex_byte (c.millis / 256 % 256) (hex_byte (c.millis % 256) (id_tail c.seq r))))))
