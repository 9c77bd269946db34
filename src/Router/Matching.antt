-- ===== src/Router/Matching.antt =====
-- What Match of core/router/router.go accepts.
use howl_go.Prelude.{
  ℕ, ◌≤◌, ◌≡◌, refl, ap, ◌↔◌, ◌⊎◌, inl, inr, true, some, List, [], ◌∷◌, ◌++◌, reverse, Bytes,
  str_eq_iff, trim_left, trim, Dict, insert, length, is_some, arith,
}
use howl_go.Router.{Route, slash, split_path, is_param, param_name, match_segments, match}
use mathlib.Core.List.{reverse-append}

-- A pattern's segment fits a path's segment: it is a parameter or the same text.
abbrev pub Fits : List Bytes → List Bytes → Type 0
Fits [] [] = Unit
Fits [] (_ ∷ _) = ⊥
Fits (_ ∷ _) [] = ⊥
Fits (seg ∷ want) (g ∷ got) = ((is_param seg ≡ true) ⊎ (seg ≡ g)) × Fits want got

match_segments_sound :
    (want got : List Bytes) (params : Dict Bytes)
    → length want ≡ length got
    → is_some (match_segments want got params) ≡ true
    → Fits want got
unfolding match_segments
match_segments_sound [] [] params e h = tt
match_segments_sound [] (_ ∷ _) params e h = absurd (omega arith)
match_segments_sound (_ ∷ _) [] params e h = absurd (omega arith)
match_segments_sound (seg ∷ want) (g ∷ got) params e h = ground (
  arith,
  str_eq_iff seg g,
  match_segments_sound want got params,
  match_segments_sound want got (insert (param_name seg) g params),
)

match_segments_complete :
    (want got : List Bytes) (params : Dict Bytes)
    → Fits want got
    → is_some (match_segments want got params) ≡ true
unfolding match_segments
match_segments_complete [] got params h = refl
match_segments_complete (seg ∷ want) [] params h = absurd h
match_segments_complete (seg ∷ want) (g ∷ got) params (inl h, hs) =
    ground (arith, match_segments_complete want got (insert (param_name seg) g params) hs)
match_segments_complete (seg ∷ want) (g ∷ got) params (inr h, hs) = ground (
  arith,
  str_eq_iff seg g,
  match_segments_complete want got params hs,
  match_segments_complete want got (insert (param_name seg) g params) hs,
)

Fits-length : (want got : List Bytes) → Fits want got → length want ≡ length got
Fits-length [] [] h = refl
Fits-length [] (_ ∷ _) h = absurd h
Fits-length (_ ∷ _) [] h = absurd h
Fits-length (_ ∷ want) (_ ∷ got) h = omega (arith, Fits-length want got h.1)

length-insert :
    (k v : Bytes) (m : Dict Bytes)
    → (1 ≤ length (insert k v m)) × (length m ≤ length (insert k v m))
unfolding insert
length-insert k v [] = omega arith
length-insert k v ((j, w) ∷ m) = ground (arith, length-insert k v m)

-- Parameters are only added, and a pattern whose match adds none is the path itself.
match_segments-grows :
    (want got : List Bytes) (params found : Dict Bytes)
    → match_segments want got params ≡ some found
    → length params ≤ length found
unfolding match_segments
match_segments-grows [] got params found h = ground arith
match_segments-grows (seg ∷ want) [] params found h = ground arith
match_segments-grows (seg ∷ want) (g ∷ got) params found h = ground (
  arith,
  match_segments-grows want got params found,
  match_segments-grows want got (insert (param_name seg) g params) found,
  length-insert (param_name seg) g params,
)

match_segments-literal :
    (want got : List Bytes) (params found : Dict Bytes)
    → length want ≡ length got
    → match_segments want got params ≡ some found
    → length found ≡ 0
    → want ≡ got
unfolding match_segments
match_segments-literal [] [] params found e h z = refl
match_segments-literal [] (_ ∷ _) params found e h z = absurd (omega arith)
match_segments-literal (seg ∷ want) [] params found e h z = absurd (omega arith)
match_segments-literal (seg ∷ want) (g ∷ got) params found e h z = ground (
  arith,
  str_eq_iff seg g,
  match_segments-literal want got params found,
  match_segments-grows want got (insert (param_name seg) g params) found,
  length-insert (param_name seg) g params,
)

trim_left-cons : (c : ℕ) (s : Bytes) → trim_left c (c ∷ s) ≡ trim_left c s
unfolding trim_left
trim_left-cons c s = ground arith

trim_left-concat :
    (c : ℕ) (s : Bytes)
    → ((trim_left c s ≡ []) × (trim_left c (s ++ c ∷ []) ≡ []))
      ⊎ (trim_left c (s ++ c ∷ []) ≡ trim_left c s ++ c ∷ [])
unfolding trim_left
trim_left-concat c [] = ground arith
trim_left-concat c (d ∷ s) = ground (arith, trim_left-concat c s)

trim-concat : (c : ℕ) (s : Bytes) → trim c (s ++ c ∷ []) ≡ trim c s
unfolding trim
trim-concat c s = elim (trim_left-concat c s) [
  | inl (e, e') ↦ rw (e, e') refl
  | inr e ↦ rw e (rw (reverse-append (trim_left c s) (c ∷ [])) (ap reverse (trim_left-cons c _)))
]

pub split_path-cons : (p : Bytes) → split_path (slash ∷ p) ≡ split_path p
unfolding split_path trim
split_path-cons p = rw trim_left-cons refl

pub split_path-concat : (p : Bytes) → split_path (p ++ slash ∷ []) ≡ split_path p
split_path-concat p = unfold split_path in rw (trim-concat slash p) refl

module _ {Component Hook : Type 0} (r : Route Component Hook) where
  -- A path matches exactly when it has as many segments as the pattern and each segment is the
  -- pattern's, or stands where the pattern has a parameter.
  pub match_iff :
      (path : Bytes)
      → (is_some (match r path) ≡ true) ↔ Fits (split_path r.pattern) (split_path path)
  unfolding match
  match_iff path = (
    λ h.
        match_segments_sound (split_path r.pattern) (split_path path) [] (ground arith)
          (ground arith),
    λ f. ground (
      arith,
      Fits-length (split_path r.pattern) (split_path path) f,
      match_segments_complete (split_path r.pattern) (split_path path) [] f,
    ),
  )

  -- A slash before or after a path changes nothing in what it matches.
  pub match-slashes :
      (path : Bytes)
      → (match r (slash ∷ path) ≡ match r path) × (match r (path ++ slash ∷ []) ≡ match r path)
  unfolding match
  match-slashes path = (rw (split_path-cons path) refl, rw (split_path-concat path) refl)

  -- A match with no parameters is of the pattern's own segments.
  pub match-literal :
      (path : Bytes) (found : Dict Bytes)
      → match r path ≡ some found
      → length found ≡ 0
      → split_path r.pattern ≡ split_path path
  unfolding match
  match-literal path found h z =
      match_segments-literal (split_path r.pattern) (split_path path) [] found (ground arith)
        (ground arith) z
