-- ===== src/Router/Tables.antt =====
-- The lists that core/router/router.go derives from the route table.
use mathlib.Core.List.{foldr, reverse-cons, reverse_aux}
use howl_go.Prelude.{
  ℕ, ◌≡◌, refl, ap, ◌≢◌, true, false, some, List, [], ◌∷◌, ◌++◌, reverse, Bytes, str_eq_iff,
  str_eq_refl, has_prefix, contains_byte, trim_left, trim, split, cons_head, Free, Dict, All, arith,
}
use howl_go.Router.{
  Route, slash, split_path, is_param, match_segments, match, nav, children, under, component,
  wrap_each,
}

contains_byte-Free : (c : ℕ) (s : Bytes) → contains_byte c s ≡ false → Free c s
unfolding contains_byte
contains_byte-Free c [] h = tt
contains_byte-Free c (d ∷ s) h = ground (arith, contains_byte-Free c s)

Free-trim_left : (c e : ℕ) (s : Bytes) → Free c s → Free c (trim_left e s)
unfolding trim_left
Free-trim_left c e [] h = tt
Free-trim_left c e (d ∷ s) h = ground (arith, Free-trim_left c e s h.1)

Free-reverse_aux : (c : ℕ) (s t : Bytes) → Free c s → Free c t → Free c (reverse_aux s t)
Free-reverse_aux c [] t h k = k
Free-reverse_aux c (d ∷ s) t h k = Free-reverse_aux c s (d ∷ t) h.1 (h.0, k)

Free-reverse : (c : ℕ) (s : Bytes) → Free c s → Free c (reverse s)
Free-reverse c s h = Free-reverse_aux c s [] h tt

Free-trim : (c e : ℕ) (s : Bytes) → Free c s → Free c (trim e s)
unfolding trim
Free-trim c e s h =
    Free-reverse c _ (Free-trim_left c e _ (Free-reverse c _ (Free-trim_left c e s h)))

All-cons_head :
    (c d : ℕ) (ws : List Bytes) → c ≢ d → All (Free c) ws → All (Free c) (cons_head d ws)
All-cons_head c d [] h hs = ((h, tt), tt)
All-cons_head c d (w ∷ ws) h hs = ((h, hs.0), hs.1)

Free-split : (c e : ℕ) (s : Bytes) → Free c s → All (Free c) (split e s)
unfolding split
Free-split c e [] h = (tt, tt)
Free-split c e (d ∷ s) h = ground (arith, Free-split c e s h.1, All-cons_head c d (split e s) h.0)

is_param-Free : (seg : Bytes) → Free b'{' seg → is_param seg ≡ false
unfolding is_param
is_param-Free [] h = refl
is_param-Free (c ∷ s) h = ground arith

match_segments_self :
    (ws : List Bytes) (params : Dict Bytes)
    → All (Free b'{') ws
    → match_segments ws ws params ≡ some params
unfolding match_segments
match_segments_self [] params h = refl
match_segments_self (w ∷ ws) params h =
    ground (arith, is_param-Free w h.0, str_eq_refl w, match_segments_self ws params h.1)

split_path-Free : (p : Bytes) → Free b'{' p → All (Free b'{') (split_path p)
unfolding split_path
split_path-Free p h =
    ground (arith, Free-split b'{' slash (trim slash p) (Free-trim b'{' slash p h))

has_prefix_refl : (s t : Bytes) → has_prefix s (s ++ t) ≡ true
unfolding has_prefix
has_prefix_refl [] t = refl
has_prefix_refl (c ∷ s) t = ground (arith, has_prefix_refl s t)

wrap_each-append {ℓ} :
    {C : Type ℓ} (ls ks : List (C → C)) (c : C)
    → wrap_each (ls ++ ks) c ≡ wrap_each ks (wrap_each ls c)
unfolding wrap_each
wrap_each-append [] ks c = refl
wrap_each-append (l ∷ ls) ks c = wrap_each-append ls ks (l c)

wrap_each-reverse {ℓ} :
    {C : Type ℓ} (ls : List (C → C)) (c : C)
    → wrap_each (reverse ls) c ≡ foldr (λ l inner. l inner) c ls
unfolding wrap_each
wrap_each-reverse [] c = refl
wrap_each-reverse (l ∷ ls) c =
    rw (reverse-cons, wrap_each-append (reverse ls) (l ∷ []) c) (ap l (wrap_each-reverse ls c))

module _ {Component Hook : Type 0} where
  -- A route whose pattern has no brace matches its own pattern as a path, without parameters.
  match_self :
      (r : Route Component Hook)
      → contains_byte b'{' r.pattern ≡ false
      → match r r.pattern ≡ some []
  unfolding match
  match_self r h = ground (
    arith,
    match_segments_self (split_path r.pattern) []
        (split_path-Free r.pattern (contains_byte-Free b'{' r.pattern h)),
  )

  -- Every route of the navigation has a URL: its pattern, taken as a path, matches it without
  -- parameters.
  pub nav-match :
      (rs : List (Route Component Hook)) → All (λ r. match r r.pattern ≡ some []) (nav rs)
  unfolding nav
  nav-match [] = tt
  nav-match (r ∷ rs) = ground (arith, nav-match rs, match_self r)

  -- For a prefix other than the empty one and the root, every route among its children is one
  -- under which the prefix is highlighted.
  pub children-under :
      (rs : List (Route Component Hook)) (prefix : Bytes)
      → prefix ≢ []
      → prefix ≢ slash ∷ []
      → All (λ r. under r.pattern prefix ≡ true) (children rs prefix)
  unfolding children under
  children-under [] prefix h k = tt
  children-under (r ∷ rs) prefix h k = ground (
    arith,
    children-under rs prefix h k,
    str_eq_iff r.pattern prefix,
    str_eq_iff prefix (slash ∷ []),
  )

  -- The layouts stand round the page in their order, the first outermost.
  pub component_lem :
      (r : Route Component Hook)
      → component r ≡ foldr (λ layout inner. layout inner) r.page r.layouts
  unfolding component
  component_lem r = wrap_each-reverse r.layouts r.page
