-- ===== src/Mw/Guards.antt =====
-- Which requests the guards of core/mw/mw.go cover.
use howl_go.Prelude.{
  ℕ, ◌≡◌, refl, sym, ap, ◌↔◌, ◌⊎◌, inl, inr, true, List, [], ◌∷◌, ◌++◌, Bytes, trim_suffix,
  has_prefix, ==_iff, arith,
}
use howl_go.Mw.{Handler, Middleware, whole_segment, under_trimmed, under, decorate, chain}

-- The path is the prefix, or goes on below it with a slash.
abbrev pub Below : Bytes → Bytes → Type 0
Below prefix path = (path ≡ prefix) ⊎ ((rest : Bytes) × (path ≡ prefix ++ b'/' ∷ rest))

abbrev below_cons :
    (a : ℕ) {prefix path : Bytes} → Below prefix path → Below (a ∷ prefix) (a ∷ path)
below_cons a (inl e) = inl (ap (λ s. a ∷ s) e)
below_cons a (inr (rest, e)) = inr (rest, ap (λ s. a ∷ s) e)

segment-Below :
    (prefix path : Bytes)
    → has_prefix prefix path ≡ true
    → whole_segment prefix path ≡ true
    → Below prefix path
unfolding has_prefix
segment-Below [] [] h k = inl refl
segment-Below [] (c ∷ path) h k = inr (path, ap (λ d. d ∷ path) ((==_iff c b'/').0 k))
segment-Below (a ∷ prefix) [] h k = absurd (ground arith)
segment-Below (a ∷ prefix) (c ∷ path) h k =
    let same : a ≡ c = (==_iff a c).0 (ground arith) in
    rw (sym same) (below_cons a (segment-Below prefix path (ground arith) k))

segment_self :
    (prefix : Bytes) → (has_prefix prefix prefix ≡ true) × (whole_segment prefix prefix ≡ true)
unfolding has_prefix
segment_self [] = (refl, refl)
segment_self (a ∷ prefix) = let (h, k) = segment_self prefix in (rw ((==_iff a a).1 refl) h, k)

segment-below :
    (prefix rest : Bytes)
    → (has_prefix prefix (prefix ++ b'/' ∷ rest) ≡ true)
      × (whole_segment prefix (prefix ++ b'/' ∷ rest) ≡ true)
unfolding has_prefix
segment-below [] rest = (refl, refl)
segment-below (a ∷ prefix) rest =
    let (h, k) = segment-below prefix rest in (rw ((==_iff a a).1 refl) h, k)

under_trimmed-covered :
    (path prefix : Bytes)
    → (has_prefix prefix path ≡ true) × (whole_segment prefix path ≡ true)
    → under_trimmed path prefix ≡ true
under_trimmed-covered path prefix (h, k) = ground arith

Below-under_trimmed : (path prefix : Bytes) → Below prefix path → under_trimmed path prefix ≡ true
Below-under_trimmed path prefix (inl e) =
    rw e (under_trimmed-covered prefix prefix (segment_self prefix))
Below-under_trimmed path prefix (inr (rest, e)) =
    rw e (under_trimmed-covered (prefix ++ b'/' ∷ rest) prefix (segment-below prefix rest))

under_trimmed_iff :
    (path prefix : Bytes) → (under_trimmed path prefix ≡ true) ↔ ((prefix ≡ []) ⊎ Below prefix path)
under_trimmed_iff path [] = (λ h. inl refl, λ h. refl)
under_trimmed_iff path (a ∷ prefix) = (
  λ h. inr (segment-Below (a ∷ prefix) path (ground arith) (ground arith)),
  λ h. elim h [ inl e ↦ cc | inr below ↦ Below-under_trimmed path (a ∷ prefix) below ],
)

-- A path is under a prefix exactly when the prefix, less a slash at its end, is empty, or is the
-- path, or stands in it before a slash.
pub under_iff :
    (path prefix : Bytes)
    → (under path prefix ≡ true)
      ↔ ((trim_suffix b'/' prefix ≡ []) ⊎ Below (trim_suffix b'/' prefix) path)
unfolding under
under_iff path prefix = under_trimmed_iff path (trim_suffix b'/' prefix)

module _ {Request Response : Type 0} where
  -- A chain of two lists is the first around the second: what stands earlier is further out.
  pub chain_append :
      (h : Handler Request Response) (ms ns : List (Middleware Request Response))
      → chain h (ms ++ ns) ≡ chain (chain h ns) ms
  unfolding chain
  chain_append h [] ns = refl
  chain_append h (m ∷ ms) ns = ap (decorate m) (chain_append h ms ns)
