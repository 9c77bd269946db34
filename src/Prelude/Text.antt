-- ===== src/Prelude/Text.antt =====
-- Go strings as lists of bytes, with the functions of package strings that the program calls.
use Prim.Native.Nat.{ℕ}
use Prim.Native.Char.{code}
use Prim.Native.String.{String}
use mathlib.Core.Path.{◌≡◌, refl, ap, ◌∙◌}
use mathlib.Core.Logic.{◌↔◌, ◌≢◌, inl, inr}
use mathlib.Core.Bool.{Bool, true, false, ◌&&◌, ◌||◌}
use mathlib.Core.List.{List, [], ◌∷◌, ◌++◌, reverse}
use native.Mathlib.Omega.{arith}
use howl_go.Prelude.Tests.{==_iff, is_nil, Bool-cases, ◌==◌, if◌then◌else◌, All}

abbrev pub Bytes : Type 0
Bytes = List ℕ

-- The bytes of an ASCII literal.
abbrev pub codes : String → Bytes
codes String.[] = []
codes (String.◌∷◌ c s) = code c ∷ codes s

-- a == b on strings
unfoldable pub str_eq : Bytes → Bytes → Bool
str_eq [] [] = true
str_eq [] (_ ∷ _) = false
str_eq (_ ∷ _) [] = false
str_eq (a ∷ s) (b ∷ t) = (a == b) && str_eq s t

pub str_eq_iff : (s t : Bytes) → (str_eq s t ≡ true) ↔ (s ≡ t)
unfolding str_eq
str_eq_iff [] [] = ground arith
str_eq_iff [] (_ ∷ _) = ground arith
str_eq_iff (_ ∷ _) [] = ground arith
str_eq_iff (a ∷ s) (b ∷ t) = ground (arith, str_eq_iff s t)

pub str_eq_refl : (s : Bytes) → str_eq s s ≡ true
str_eq_refl s = (str_eq_iff s s).1 refl

-- strings.HasPrefix(s, prefix), the prefix first
unfoldable pub has_prefix : Bytes → Bytes → Bool
has_prefix [] s = true
has_prefix (_ ∷ _) [] = false
has_prefix (p ∷ ps) (c ∷ s) = (p == c) && has_prefix ps s

-- strings.HasSuffix(s, string(c)) for one byte c
unfoldable pub has_last : ℕ → Bytes → Bool
has_last c [] = false
has_last c (d ∷ []) = c == d
has_last c (d ∷ e ∷ s) = has_last c (e ∷ s)

-- strings.Contains(s, string(c)) for one byte c
unfoldable pub contains_byte : ℕ → Bytes → Bool
contains_byte c [] = false
contains_byte c (d ∷ s) = (c == d) || contains_byte c s

-- strings.TrimLeft(s, string(c)) for one byte c
unfoldable pub trim_left : ℕ → Bytes → Bytes
trim_left c [] = []
trim_left c (d ∷ s) = let rest = trim_left c s in if c == d then rest else d ∷ s

-- strings.TrimSuffix(s, string(c)) for one byte c
unfoldable pub trim_suffix : ℕ → Bytes → Bytes
trim_suffix c [] = []
trim_suffix c (d ∷ []) = if c == d then [] else d ∷ []
trim_suffix c (d ∷ e ∷ s) = d ∷ trim_suffix c (e ∷ s)

-- strings.Trim(s, string(c)) for one byte c
unfoldable pub trim : ℕ → Bytes → Bytes
unfolding trim_left
trim c s = reverse (trim_left c (reverse (trim_left c s)))

abbrev pub cons_head : ℕ → List Bytes → List Bytes
cons_head c [] = (c ∷ []) ∷ []
cons_head c (w ∷ ws) = (c ∷ w) ∷ ws

-- strings.Split(s, string(c)) for one byte c
unfoldable pub split : ℕ → Bytes → List Bytes
split c [] = [] ∷ []
split c (d ∷ s) = let rest = split c s in if c == d then [] ∷ rest else cons_head d rest

pub split-some : (c : ℕ) (s : Bytes) → is_nil (split c s) ≡ false
unfolding split
split-some c [] = refl
split-some c (d ∷ s) = elim (Bool-cases (c == d)) [
  | inl same ↦ rw same refl
  | inr other ↦ rw other (headed (split c s))
]
  where
    headed : (parts : List Bytes) → is_nil (cons_head d parts) ≡ false
    headed [] = refl
    headed (w ∷ ws) = refl

-- strings.Join(parts, string(c)) for one byte c
unfoldable pub join : ℕ → List Bytes → Bytes
join c [] = []
join c (w ∷ []) = w
join c (w ∷ v ∷ ws) = w ++ c ∷ join c (v ∷ ws)

-- A text that does not hold the byte.
abbrev pub Free : ℕ → Bytes → Type 0
Free c = All (λ d. c ≢ d)

pub split-append : (c : ℕ) (w r : Bytes) → Free c w → split c (w ++ c ∷ r) ≡ w ∷ split c r
unfolding split
split-append c [] r f = let same : (c == c) ≡ true = (==_iff c c).1 refl in rw same refl
split-append c (d ∷ w) r (f, fs) =
    let other : (c == d) ≡ false = ground (arith, ==_iff c d) in
    rw (other, split-append c w r fs) refl

pub split-Free : (c : ℕ) (s : Bytes) → All (Free c) (split c s)
unfolding split
split-Free c [] = (tt, tt)
split-Free c (d ∷ s) = elim (Bool-cases (c == d)) [
  | inl same ↦ rw same (tt, split-Free c s)
  | inr other ↦ rw other (headed (split c s) (λ e. ground (arith, ==_iff c d)) (split-Free c s))
]
  where
    headed : (parts : List Bytes) → (c ≢ d) → All (Free c) parts → All (Free c) (cons_head d parts)
    headed [] ne h = ((ne, tt), tt)
    headed (w ∷ ws) ne (h, hs) = ((ne, h), hs)

split-lone : (c : ℕ) (w : Bytes) → Free c w → split c w ≡ w ∷ []
unfolding split
split-lone c [] f = refl
split-lone c (d ∷ w) (f, fs) =
    let other : (c == d) ≡ false = ground (arith, ==_iff c d) in rw (other, split-lone c w fs) refl

pub split-join :
    (c : ℕ) (parts : List Bytes)
    → is_nil parts ≡ false
    → All (Free c) parts
    → split c (join c parts) ≡ parts
unfolding join
split-join c [] h f = absurd (ground arith)
split-join c (w ∷ []) h (f, fs) = split-lone c w f
split-join c (w ∷ v ∷ ws) h (f, fs) =
    split-append c w (join c (v ∷ ws)) f ∙ ap (λ r. w ∷ r) (split-join c (v ∷ ws) refl fs)
