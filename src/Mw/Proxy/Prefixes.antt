-- ===== src/Mw/Proxy/Prefixes.antt =====
-- Which paths are under a prefix of core/mw/proxy.go.
use howl_go.Prelude.{
  ℕ, ◌+◌, ◌≡◌, refl, ap, ◌∙◌, ◌↔◌, ◌≢◌, ◌⊎◌, inl, inr, true, false, some, List, [], ◌∷◌, ◌++◌,
  Bytes, trim, split, Free, length, is_nil, ==_iff, ◌==◌, Bool-cases, split-some, if◌then◌else◌,
  arith,
}
use howl_go.Mw.Proxy.{segment, beyond, fits, under_segments, under_prefix}

-- The end of a text, or the place before a slash.
pub data Boundary : Bytes → Type 0 where
  at_end : Boundary []
  at_slash : (s : Bytes) → Boundary (b'/' ∷ s)

-- The path opens with one segment for each of the wanted ones, each fitting, and they take n bytes.
pub data Covered : List Bytes → Bytes → ℕ → Type 0 where
  all_seen : (rest : Bytes) → Boundary rest → Covered [] rest 0
  one_more :
      (want got : Bytes) {wants : List Bytes} {rest : Bytes} {n : ℕ}
      → fits want got ≡ true
      → Free b'/' got
      → Covered wants rest n
      → Covered (want ∷ wants) (b'/' ∷ (got ++ rest)) (1 + length got + n)

beyond-Boundary : (s : Bytes) → Boundary (beyond s)
unfolding beyond
beyond-Boundary [] = at_end
beyond-Boundary (c ∷ s) = elim (Bool-cases (c == b'/')) [
  | inl slash ↦ rw (slash, (==_iff c b'/').0 slash) (at_slash s)
  | inr other ↦ rw other (beyond-Boundary s)
]

segment-beyond : (s : Bytes) → segment s ++ beyond s ≡ s
unfolding segment beyond
segment-beyond [] = refl
segment-beyond (c ∷ s) = elim (Bool-cases (c == b'/')) [
  | inl slash ↦ rw slash refl
  | inr other ↦ rw other (ap (λ t. c ∷ t) (segment-beyond s))
]

segment-Free : (s : Bytes) → Free b'/' (segment s)
unfolding segment
segment-Free [] = tt
segment-Free (c ∷ s) = elim (Bool-cases (c == b'/')) [
  | inl slash ↦ rw slash tt
  | inr other ↦ rw other (λ e. ground (arith, ==_iff c b'/'), segment-Free s)
]

segment-cut : (got rest : Bytes) → Free b'/' got → Boundary rest → segment (got ++ rest) ≡ got
unfolding segment
segment-cut [] [] f at_end = refl
segment-cut [] (_ ∷ s) f (at_slash _) = refl
segment-cut (c ∷ got) rest (f, fs) b =
    let other : (c == b'/') ≡ false = ground (arith, ==_iff c b'/') in
    rw (other, segment-cut got rest fs b) refl

beyond-cut : (got rest : Bytes) → Free b'/' got → Boundary rest → beyond (got ++ rest) ≡ rest
unfolding beyond
beyond-cut [] [] f at_end = refl
beyond-cut [] (_ ∷ s) f (at_slash _) = refl
beyond-cut (c ∷ got) rest (f, fs) b =
    let other : (c == b'/') ≡ false = ground (arith, ==_iff c b'/') in
    rw other (beyond-cut got rest fs b)

Covered-Boundary :
    {wants : List Bytes} {path : Bytes} {n : ℕ} → Covered wants path n → Boundary path
Covered-Boundary (all_seen rest b) = b
Covered-Boundary (one_more want got {rest = rest} h f c) = at_slash (got ++ rest)

Covered-under_segments :
    {wants : List Bytes} {path : Bytes} {n : ℕ} (i : ℕ)
    → Covered wants path n
    → under_segments wants path i ≡ some (i + n)
unfolding under_segments
Covered-under_segments i (all_seen rest b) = ap some (omega arith)
Covered-under_segments i (one_more want got {wants} {rest} {n} h f c) =
    rw (segment-cut got rest f (Covered-Boundary c), beyond-cut got rest f (Covered-Boundary c), h)
      (Covered-under_segments (i + 1 + length got) c ∙ ap some (omega arith))

-- what the loop finds at the index i
Found : List Bytes → Bytes → ℕ → ℕ → Type 0
Found wants path i n = (m : ℕ) × Covered wants path m × (n ≡ i + m)

under_segments-Covered :
    (wants : List Bytes) (path : Bytes) (i n : ℕ)
    → Boundary path
    → under_segments wants path i ≡ some n
    → Found wants path i n
unfolding under_segments Found
under_segments-Covered [] path i n b h = (0, all_seen path b, ground arith)
under_segments-Covered (want ∷ wants) [] i n b h = absurd (ground arith)
under_segments-Covered (want ∷ wants) (_ ∷ path) i n (at_slash _) h =
    elim (Bool-cases (fits want (segment path))) [
      | inl fit ↦
          (let (m, c, e) =
              under_segments-Covered wants (beyond path) (i + 1 + length (segment path)) n
                (beyond-Boundary path) (ground (arith, fit, h)) in
            let n' = 1 + length (segment path) + m in
            let whole : Covered (want ∷ wants) (b'/' ∷ (segment path ++ beyond path)) n' =
              one_more want (segment path) fit (segment-Free path) c in
            (n', rw (segment-beyond path) at whole, omega arith))
      | inr unfit ↦ absurd (ground (arith, unfit, h))
    ]

-- a path that some segment is found in opens with a slash
found-Boundary :
    (want : Bytes) (wants : List Bytes) (path : Bytes) (i n : ℕ)
    → under_segments (want ∷ wants) path i ≡ some n
    → Boundary path
unfolding under_segments
found-Boundary want wants [] i n h = at_end
found-Boundary want wants (c ∷ path) i n h = elim (Bool-cases (c == b'/')) [
  | inl slash ↦ rw ((==_iff c b'/').0 slash) (at_slash path)
  | inr other ↦ absurd (ground (arith, other, h))
]

under_split :
    (trimmed path : Bytes) (n : ℕ)
    → (under_segments (split b'/' trimmed) path 0 ≡ some n) ↔ Covered (split b'/' trimmed) path n
unfolding Found
under_split trimmed path n = at_parts (split b'/' trimmed) (split-some b'/' trimmed)
  where
    at_parts :
        (parts : List Bytes)
        → is_nil parts ≡ false
        → (under_segments parts path 0 ≡ some n) ↔ Covered parts path n
    at_parts [] h = absurd (ground arith)
    at_parts (want ∷ wants) h = (
      λ found.
          (let (m, c, e) =
              under_segments-Covered (want ∷ wants) path 0 n
                (found-Boundary want wants path 0 n found) found in
            let same : n ≡ m = omega arith in rw same c),
      λ c. Covered-under_segments 0 c ∙ ap some (omega arith),
    )

-- A path is under a prefix, with n bytes of it covered, exactly when the prefix without its outer
-- slashes is empty and n is 0, or is not empty and the path opens with one whole segment for each
-- segment of the prefix, equal to it or, where that is a {name}, not empty, these take n bytes, and
-- the path ends there or goes on with a slash.
pub under_prefix_iff :
    (prefix path : Bytes) (n : ℕ)
    → (under_prefix prefix path ≡ some n) ↔ (
        ((trim b'/' prefix ≡ []) × (n ≡ 0))
        ⊎ ((trim b'/' prefix ≢ []) × Covered (split b'/' (trim b'/' prefix)) path n))
unfolding under_prefix
under_prefix_iff prefix path n = at_trimmed (trim b'/' prefix)
  where
    at_trimmed :
        (trimmed : Bytes)
        → ((if is_nil trimmed then some 0 else under_segments (split b'/' trimmed) path 0) ≡ some n)
          ↔ (((trimmed ≡ []) × (n ≡ 0)) ⊎ ((trimmed ≢ []) × Covered (split b'/' trimmed) path n))
    at_trimmed [] = (
      λ h. inl (refl, ground arith),
      λ h. elim h [ inl (e, z) ↦ ground arith | inr (ne, c) ↦ absurd (ne refl) ],
    )
    at_trimmed (d ∷ s) = (
      λ h. inr (λ e. ground (arith, e), (under_split (d ∷ s) path n).0 h),
      λ h. elim h [
        | inl (e, z) ↦ absurd (ground (arith, e))
        | inr (ne, c) ↦ (under_split (d ∷ s) path n).1 c
      ],
    )
