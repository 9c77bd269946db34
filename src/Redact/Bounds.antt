-- ===== src/Redact/Bounds.antt =====
-- The size of a rendered value, and where it is cut: core/observe/redact.go.
use howl_go.Prelude.{
  ℕ, zero, suc, ◌+◌, ◌≤◌, ◌≡◌, refl, ◌⊎◌, inl, inr, true, false, [], ◌∷◌, ◌++◌, Bytes, ltb, length,
  arith, Bool-cases,
}
use howl_go.Redact.{
  Mode, Value, render, write, take, cut_from, is_boundary, byte_at, max_rendered, ellipsis, is_off,
}

length-append : (s t : Bytes) → length (s ++ t) ≡ length s + length t
length-append [] t = omega arith
length-append (c ∷ s) t = omega (arith, length-append s t)

length-take : (n : ℕ) (s : Bytes) → length (take n s) ≤ n
unfolding take
length-take zero s = omega arith
length-take (suc n) [] = omega arith
length-take (suc n) (c ∷ s) = omega (arith, length-take n s)

-- The cut stands at the start or before the first byte of a character, at most at the limit.
pub cut_from_lem :
    (limit : ℕ) (out : Bytes)
    → (cut_from limit out ≤ limit)
      × ((cut_from limit out ≡ 0) ⊎ (is_boundary (byte_at out (cut_from limit out)) ≡ true))
unfolding cut_from
cut_from_lem zero out = (omega arith, inl refl)
cut_from_lem (suc limit) out = elim (Bool-cases (is_boundary (byte_at out (suc limit)))) [
  | inl here ↦ rw here (omega arith, inr here)
  | inr inside ↦ let (short, at) = cut_from_lem limit out in rw inside (omega arith, at)
]

length-cut : (out : Bytes) → length (take (cut_from max_rendered out) out ++ ellipsis) ≤ 1027
length-cut out =
    let cut = cut_from max_rendered out in
    omega (
      arith,
      length-append (take cut out) ellipsis,
      length-take cut out,
      (cut_from_lem max_rendered out).0,
    )

ltb-false→le : (a b : ℕ) → ltb a b ≡ false → b ≤ a + 3
ltb-false→le a b h = ground arith

-- A rendered value takes at most 1024 bytes and the three of the ellipsis.
pub length-render :
    (marshal : Bytes → Bytes) (v : Value) (mode : Mode) → length (render marshal v mode) ≤ 1027
unfolding render
length-render marshal v mode =
    let out = write marshal [] v mode false 0 in
    elim (Bool-cases (is_off mode)) [
      | inl o ↦ rw o (omega arith)
      | inr n ↦ elim (Bool-cases (ltb max_rendered (length out))) [
        | inl long ↦ rw (n, long) (length-cut out)
        | inr short ↦ rw (n, short) (ltb-false→le max_rendered (length out) short)
      ]
    ]
