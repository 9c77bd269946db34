-- ===== src/Cache/Order.antt =====
-- The invariant of the LRU store of core/cache/cache.go: the index and the list agree.
use mathlib.Core.Path.{subst}
use howl_go.Prelude.{
  ℕ, suc, ◌≤◌, ◌<◌, ◌≡◌, refl, sym, ◌≢◌, Option, none, some, List, [], ◌∷◌, Bytes, str_eq,
  str_eq_iff, lookup, ◌==◌, if◌then◌else◌, length, All, arith, Bool-cases, inl, inr,
}
use howl_go.Cache.{Element, Lru, deref, list_remove}

-- The address of the first element with a key.
abbrev pub addr_of : Bytes → List Element → Option ℕ
addr_of k [] = none
addr_of k (e ∷ es) = if str_eq e.entry.key k then some e.addr else addr_of k es

-- Another element with another key.
abbrev pub Apart : Element → Element → Type 0
Apart e f = (e.addr ≢ f.addr) × (e.entry.key ≢ f.entry.key)

abbrev pub Distinct : List Element → Type 0
Distinct [] = Unit
Distinct (e ∷ es) = All (Apart e) es × Distinct es

-- Every key of the index leads to its element and every element is indexed; no two elements share
-- a key or an address.
pub record IsLinked (c : Lru) : Type 0 where
  pub indexed : (k : Bytes) → lookup k c.index ≡ addr_of k c.order
  pub distinct : Distinct c.order
  pub allocated : All (λ e. e.addr < c.fresh) c.order

-- It also holds at most `max` entries, which is at least one.
pub record IsValid (c : Lru) : Type 0 where
  pub linked : IsLinked c
  pub room : 1 ≤ c.max
  pub bounded : length c.order ≤ c.max

addr_of-Apart : (e : Element) (es : List Element) → All (Apart e) es → addr_of e.entry.key es ≡ none
addr_of-Apart e [] h = refl
addr_of-Apart e (f ∷ es) h =
    ground (arith, str_eq_iff f.entry.key e.entry.key, addr_of-Apart e es h.1)

deref-Apart : (e : Element) (es : List Element) → All (Apart e) es → deref e.addr es ≡ none
unfolding deref
deref-Apart e [] h = refl
deref-Apart e (f ∷ es) h = ground (arith, deref-Apart e es h.1)

pub addr-deref : (a : ℕ) (es : List Element) (el : Element) → deref a es ≡ some el → el.addr ≡ a
unfolding deref
addr-deref a [] el h = ground arith
addr-deref a (e ∷ es) el h = ground (arith, addr-deref a es el)

pub All-deref {ℓ} :
    (P : Element → Type ℓ) (a : ℕ) (es : List Element) (el : Element)
    → All P es
    → deref a es ≡ some el
    → P el
unfolding deref
All-deref P a [] el h e = absurd (ground arith)
All-deref P a (x ∷ es) el h e = elim (Bool-cases (x.addr == a)) [
  | inl t ↦ subst P (ground arith) h.0
  | inr f ↦ All-deref P a es el h.1 (ground arith)
]

pub addr_of-deref :
    (a : ℕ) (es : List Element) (el : Element)
    → Distinct es
    → deref a es ≡ some el
    → addr_of el.entry.key es ≡ some a
unfolding deref
addr_of-deref a [] el d h = ground arith
addr_of-deref a (e ∷ es) el d h = elim (Bool-cases (e.addr == a)) [
  | inl t ↦ ground (arith, str_eq_iff e.entry.key el.entry.key)
  | inr f ↦
      let found : deref a es ≡ some el = ground arith in
      let other : Apart e el = All-deref (Apart e) a es el d.0 found in
      ground (arith, str_eq_iff e.entry.key el.entry.key, addr_of-deref a es el d.1 found)
]

-- What the index gives for a key is an element with that key.
pub deref-addr_of :
    (k : Bytes) (a : ℕ) (es : List Element)
    → Distinct es
    → addr_of k es ≡ some a
    → (el : Element) × (deref a es ≡ some el) × (el.entry.key ≡ k) × (el.addr ≡ a)
unfolding deref
deref-addr_of k a [] d h = absurd (ground arith)
deref-addr_of k a (e ∷ es) d h = elim (Bool-cases (str_eq e.entry.key k)) [
  | inl t ↦ (e, ground arith, ground (arith, str_eq_iff e.entry.key k), ground arith)
  | inr f ↦
      let (el, found, key, addr) = deref-addr_of k a es d.1 (ground arith) in
      let other : Apart e el = All-deref (Apart e) a es el d.0 found in
      (el, ground arith, key, addr)
]

pub All-list_remove {ℓ} :
    (P : Element → Type ℓ) (a : ℕ) (es : List Element) → All P es → All P (list_remove a es)
unfolding list_remove
All-list_remove P a [] h = tt
All-list_remove P a (e ∷ es) h = elim (Bool-cases (e.addr == a)) [
  | inl t ↦ rw t h.1
  | inr f ↦ rw f (h.0, All-list_remove P a es h.1)
]

pub Distinct-list_remove : (a : ℕ) (es : List Element) → Distinct es → Distinct (list_remove a es)
unfolding list_remove
Distinct-list_remove a [] d = tt
Distinct-list_remove a (e ∷ es) d =
    ground (arith, Distinct-list_remove a es d.1, All-list_remove (Apart e) a es d.0)

pub Apart-list_remove :
    (a : ℕ) (es : List Element) (el : Element)
    → Distinct es
    → deref a es ≡ some el
    → All (Apart el) (list_remove a es)
unfolding list_remove deref
Apart-list_remove a [] el d h = tt
Apart-list_remove a (e ∷ es) el d h = elim (Bool-cases (e.addr == a)) [
  | inl t ↦
      let same : e ≡ el = ground arith in
      let apart : All (Apart el) es = subst (λ x. All (Apart x) es) same d.0 in rw t apart
  | inr f ↦
      let found : deref a es ≡ some el = ground arith in
      let other : Apart e el = All-deref (Apart e) a es el d.0 found in
      rw f ((λ p. other.0 (sym p), λ p. other.1 (sym p)), Apart-list_remove a es el d.1 found)
]

pub addr_of-list_remove :
    (k : Bytes) (a : ℕ) (es : List Element) (el : Element)
    → Distinct es
    → deref a es ≡ some el
    → addr_of k (list_remove a es) ≡ (if str_eq el.entry.key k then none else addr_of k es)
unfolding list_remove deref
addr_of-list_remove k a [] el d h = ground arith
addr_of-list_remove k a (e ∷ es) el d h = elim (Bool-cases (e.addr == a)) [
  | inl t ↦
      ground (arith, str_eq_iff e.entry.key k, str_eq_iff el.entry.key k, addr_of-Apart e es d.0)
  | inr f ↦
      let found : deref a es ≡ some el = ground arith in
      let other : Apart e el = All-deref (Apart e) a es el d.0 found in
      ground (
        arith,
        str_eq_iff e.entry.key k,
        str_eq_iff el.entry.key k,
        addr_of-list_remove k a es el d.1 found,
      )
]

pub length-list_remove :
    (a : ℕ) (es : List Element) (el : Element)
    → deref a es ≡ some el
    → length es ≡ suc (length (list_remove a es))
unfolding list_remove deref
length-list_remove a [] el h = ground arith
length-list_remove a (e ∷ es) el h = ground (arith, length-list_remove a es el)
