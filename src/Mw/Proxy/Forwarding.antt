-- ===== src/Mw/Proxy/Forwarding.antt =====
-- The paths that core/mw/proxy.go forwards.
use howl_go.Prelude.{
  ℕ, suc, ◌+◌, ◌≡◌, ap, inl, inr, true, false, Bool, ◌&&◌, some, List, [], ◌∷◌, ◌++◌, Bytes, length,
  is_nil, ltb, if◌then◌else◌, Option-cases, arith,
}
use howl_go.Mw.Proxy.{Proxy, under_prefix, first_match, match, drop_bytes, or_root, forwarded}
use howl_go.Mw.Proxy.Prefixes.{
  Boundary, at_end, at_slash, Covered, all_seen, one_more, under_prefix_iff,
}

-- A path that opens with a slash.
pub data Rooted : Bytes → Type 0 where
  rooted : (s : Bytes) → Rooted (b'/' ∷ s)

drop_bytes-append :
    (got rest : Bytes) (n : ℕ) → drop_bytes (length got + n) (got ++ rest) ≡ drop_bytes n rest
unfolding drop_bytes
drop_bytes-append [] rest n = ap (λ k. drop_bytes k rest) (omega arith)
drop_bytes-append (c ∷ got) rest n =
    let one : length (c ∷ got) + n ≡ suc (length got + n) = omega arith in
    rw one (drop_bytes-append got rest n)

drop_bytes-Covered :
    {wants : List Bytes} {path : Bytes} {n : ℕ}
    → Covered wants path n
    → Boundary (drop_bytes n path)
unfolding drop_bytes
drop_bytes-Covered (all_seen rest b) = b
drop_bytes-Covered (one_more want got {rest = rest} {n} h f c) =
    let n' = length got + n in
    let one : 1 + length got + n ≡ suc n' = omega arith in
    rw (one, drop_bytes-append got rest n) (drop_bytes-Covered c)

or_root-Rooted : (rest : Bytes) → Boundary rest → Rooted (or_root rest)
or_root-Rooted [] at_end = rooted []
or_root-Rooted (_ ∷ s) (at_slash _) = rooted s

whole : {path : Bytes} → Rooted path → Boundary (drop_bytes 0 path)
unfolding drop_bytes
whole (rooted s) = at_slash s

under_prefix-Boundary :
    (prefix path : Bytes) (n : ℕ)
    → Rooted path
    → under_prefix prefix path ≡ some n
    → Boundary (drop_bytes n path)
under_prefix-Boundary prefix path n r h = elim ((under_prefix_iff prefix path n).0 h) [
  | inl (e, z) ↦ rw z (whole r)
  | inr (some_left, c) ↦ drop_bytes-Covered c
]

first_match-Boundary :
    (prefixes : List Bytes) (path : Bytes) (n : ℕ)
    → Rooted path
    → first_match prefixes path ≡ some n
    → Boundary (drop_bytes n path)
unfolding first_match
first_match-Boundary [] path n r h = absurd (ground arith)
first_match-Boundary (prefix ∷ prefixes) path n r h =
    elim (Option-cases (under_prefix prefix path)) [
      | inl unmatched ↦ first_match-Boundary prefixes path n r (ground (arith, unmatched, h))
      | inr (m, found) ↦ under_prefix-Boundary prefix path n r (ground (arith, found, h))
    ]

match-Boundary :
    (p : Proxy) (path : Bytes) (n : ℕ)
    → Rooted path
    → match p path ≡ some n
    → Boundary (drop_bytes n path)
unfolding match
match-Boundary p path n r = at_paths p.paths
  where
    at_paths :
        (prefixes : List Bytes)
        → ((if is_nil prefixes then some 0 else first_match prefixes path) ≡ some n)
        → Boundary (drop_bytes n path)
    at_paths [] h = let z : n ≡ 0 = ground (arith, h) in rw z (whole r)
    at_paths (prefix ∷ prefixes) h = first_match-Boundary (prefix ∷ prefixes) path n r h

seen-Rooted :
    (stripped : Bool) (rest path : Bytes)
    → Rooted path
    → Boundary rest
    → Rooted (if stripped then or_root rest else path)
seen-Rooted true rest path r b = or_root-Rooted rest b
seen-Rooted false rest path r b = r

-- A request whose path opens with a slash is forwarded under a path that opens with a slash, the
-- prefix stripped or not.
pub forwarded-Rooted :
    (p : Proxy) (path target : Bytes) → Rooted path → forwarded p path ≡ some target → Rooted target
unfolding forwarded
forwarded-Rooted p path target r h = elim (Option-cases (match p path)) [
  | inl unmatched ↦ absurd (ground (arith, unmatched, h))
  | inr (n, found) ↦
      (let stripped = p.strip_prefix && ltb 0 n in
        let seen =
          seen-Rooted stripped (drop_bytes n path) path r (match-Boundary p path n r found) in
        let same : (if stripped then or_root (drop_bytes n path) else path) ≡ target =
          ground (arith, found, h) in
        rw same at seen)
]
