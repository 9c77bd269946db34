-- ===== src/Db/Uuid/Ordering.antt =====
-- The order of the ids that db/uuid.go gives out.
use howl_go.Prelude.{ℕ, ◌/◌, ◌%◌, ◌≤◌, ◌<◌, ◌≡◌, ◌∙◌, inl, inr, ◌∷◌, Bytes, ltb, arith, Bool-cases}
use howl_go.Db.Value.{less, str_compare}
use howl_go.Db.Uuid.{Clock, tick, hex_digit, hex_byte, Random, id_tail, new_id}

hex_digit_less : (a b : ℕ) → a < b → b < 16 → hex_digit a < hex_digit b
unfolding hex_digit
hex_digit_less a b h k = ground arith

compare-cons_less : (a b : ℕ) (s t : Bytes) → a < b → str_compare (a ∷ s) (b ∷ t) ≡ less
unfolding str_compare
compare-cons_less a b s t h = ground arith

compare-cons : (a : ℕ) (s t : Bytes) → str_compare (a ∷ s) (a ∷ t) ≡ str_compare s t
unfolding str_compare
compare-cons a s t = ground arith

hex_byte_same : (a : ℕ) (s t : Bytes) → str_compare (hex_byte a s) (hex_byte a t) ≡ str_compare s t
unfolding hex_byte
hex_byte_same a s t = compare-cons _ _ _ ∙ compare-cons _ s t

hex_byte_less :
    (a b : ℕ) (s t : Bytes) → a < b → b < 256 → str_compare (hex_byte a s) (hex_byte b t) ≡ less
unfolding hex_byte
hex_byte_less a b s t h k = elim (Bool-cases (ltb (a / 16) (b / 16))) [
  | inl high ↦
      compare-cons_less _ _ _ _ (hex_digit_less (a / 16) (b / 16) (ground arith) (omega arith))
  | inr low ↦
      let e : a / 16 ≡ b / 16 = ground arith in
      rw e (
        compare-cons _ _ _
        ∙ compare-cons_less _ _ s t (hex_digit_less (a % 16) (b % 16) (omega arith) (omega arith)))
]

-- One byte of two numbers whose higher bytes agree.
digit :
    (q p : ℕ) (s t : Bytes)
    → q / 256 ≡ p / 256
    → q ≤ p
    → (q ≡ p → str_compare s t ≡ less)
    → str_compare (hex_byte (q % 256) s) (hex_byte (p % 256) t) ≡ less
digit q p s t e h rest = elim (Bool-cases (ltb (q % 256) (p % 256))) [
  | inl below ↦ hex_byte_less (q % 256) (p % 256) s t (ground arith) (omega arith)
  | inr equal ↦ let here : q ≡ p = ground arith in rw here (hex_byte_same (p % 256) s t ∙ rest here)
]

id_tail_less :
    (i j : ℕ) (r r' : Random) → i < j → j ≤ 4095 → str_compare (id_tail i r) (id_tail j r') ≡ less
unfolding id_tail
id_tail_less i j r r' h k = compare-cons b'-' _ _ ∙ elim (Bool-cases (ltb (i / 256) (j / 256))) [
  | inl high ↦ hex_byte_less _ _ _ _ (ground arith) (omega arith)
  | inr low ↦
      let e : i / 256 ≡ j / 256 = ground arith in
      rw e (hex_byte_same _ _ _ ∙ hex_byte_less (i % 256) (j % 256) _ _ (omega arith) (omega arith))
]

new_id_less :
    (c d : Clock) (r r' : Random)
    → c.millis ≤ d.millis
    → (c.millis ≡ d.millis → c.seq < d.seq)
    → d.millis < 281474976710656
    → d.seq ≤ 4095
    → str_compare (new_id c r) (new_id d r') ≡ less
unfolding new_id
new_id_less c d r r' h k big small =
    let m = c.millis in
    let n = d.millis in
    digit (m / 1099511627776) (n / 1099511627776) _ _ (omega arith) (omega arith) (λ e5.
      digit (m / 4294967296) (n / 4294967296) _ _ (omega arith) (omega arith) (λ e4.
        digit (m / 16777216) (n / 16777216) _ _ (omega arith) (omega arith) (λ e3.
          digit (m / 65536) (n / 65536) _ _ (omega arith) (omega arith) (λ e2.
            compare-cons b'-' _ _
            ∙ digit (m / 256) (n / 256) _ _ (omega arith) (omega arith) (λ e1.
              digit m n _ _ (omega arith) h (λ e0. id_tail_less c.seq d.seq r r' (k e0) small))))))

-- Of two ids the one that is given out next sorts after the other, whatever the clock reads and the
-- random bytes are, in the same millisecond and after a step back of the clock too. The counter is
-- at most 4095, as every tick leaves it, and the time fits 48 bits.
pub new_id-tick :
    (now : ℕ) (c : Clock) (r r' : Random)
    → c.seq ≤ 4095
    → (tick now c).millis < 281474976710656
    → (str_compare (new_id c r) (new_id (tick now c) r') ≡ less) × ((tick now c).seq ≤ 4095)
unfolding tick
new_id-tick now c r r' small big =
    let bound : (tick now c).seq ≤ 4095 = ground arith in
    (new_id_less c (tick now c) r r' (ground arith) (ground arith) big bound, bound)
