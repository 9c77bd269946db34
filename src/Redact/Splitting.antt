-- ===== src/Redact/Splitting.antt =====
-- How words of core/observe/redact.go splits a field name.
use mathlib.Core.List.{append_assoc, append-nil}
use howl_go.Prelude.{
  ℕ, ◌≡◌, refl, sym, ap, ◌∙◌, Bool, true, false, not, ◌&&◌, ◌||◌, Option, none, some, List, [], ◌∷◌,
  ◌++◌, Bytes, if◌then◌else◌, All, arith,
}
use howl_go.Redact.{
  is_digit, is_upper, is_alnum, to_lower, flush, after_lower, before_lower, words_from, words,
  any_member, sensitive, sensitive_words,
}

flush-append : (w : Bytes) (out more : List Bytes) → flush w out ++ more ≡ flush w (out ++ more)
flush-append [] out more = refl
flush-append (c ∷ w) out more = refl

-- One round of the loop of words, by its three tests.
choose {ℓ} : {A : Type ℓ} → Bool → Bool → Bool → A → A → A → A
choose alnum lower_before lower_after skip start longer =
    if not alnum
    then skip
    else if lower_before
    then start
    else if lower_after
    then start
    else longer

words_from-cons :
    (prev : Option ℕ) (word : Bytes) (r : ℕ) (rest : Bytes)
    → words_from prev word (r ∷ rest)
      ≡ choose
          (is_alnum r)
          (is_upper r && after_lower prev)
          (is_upper r && before_lower rest)
          (flush word (words_from (some r) [] rest))
          (flush word (words_from (some r) (r ∷ []) rest))
          (words_from (some r) (word ++ r ∷ []) rest)
unfolding words_from choose
words_from-cons prev word r rest = refl

choose-append :
    (a b c : Bool) (x y z m : List Bytes)
    → choose a b c x y z ++ m ≡ choose a b c (x ++ m) (y ++ m) (z ++ m)
unfolding choose
choose-append false b c x y z m = refl
choose-append true true c x y z m = refl
choose-append true false true x y z m = refl
choose-append true false false x y z m = refl

choose-start {ℓ} :
    {A : Type ℓ} (a b c : Bool) (x y : A) → choose a b c x y y ≡ choose a false false x y y
unfolding choose
choose-start false b c x y = refl
choose-start true true c x y = refl
choose-start true false true x y = refl
choose-start true false false x y = refl

-- With no word begun, what stood before does not matter.
words_from-start : (prev : Option ℕ) (s : Bytes) → words_from prev [] s ≡ words_from none [] s
words_from-start prev [] = unfold words_from in refl
words_from-start prev (r ∷ s) =
    rw (words_from-cons prev [] r s, words_from-cons none [] r s)
      (choose-start (is_alnum r) (is_upper r && after_lower prev) (is_upper r && before_lower s) _ _
        ∙ sym (choose-start (is_alnum r) (is_upper r && false) (is_upper r && before_lower s) _ _))

-- The last byte is no upper-case letter.
abbrev pub EndsLow : Bytes → Type 0
EndsLow [] = Unit
EndsLow (c ∷ []) = is_upper c ≡ false
EndsLow (c ∷ d ∷ s) = EndsLow (d ∷ s)

words_from-separator :
    (prev : Option ℕ) (word s : Bytes) (sep : ℕ) (t : Bytes)
    → is_alnum sep ≡ false
    → EndsLow s
    → words_from prev word (s ++ sep ∷ t) ≡ words_from prev word s ++ words_from none [] t
words_from-separator prev word [] sep t h low =
    unfold words_from in rw h (rw (words_from-start (some sep) t) (sym (flush-append word [] _)))
words_from-separator prev word (c ∷ []) sep t h low =
    rw
      (
        words_from-cons prev word c (sep ∷ t),
        words_from-cons prev word c [],
        choose-append,
        words_from-separator (some c) [] [] sep t h tt,
        words_from-separator (some c) (c ∷ []) [] sep t h tt,
        words_from-separator (some c) (word ++ c ∷ []) [] sep t h tt,
        low,
        flush-append,
        flush-append,
      )
      refl
words_from-separator prev word (c ∷ d ∷ s) sep t h low =
    rw
      (
        words_from-cons prev word c (d ∷ s ++ sep ∷ t),
        words_from-cons prev word c (d ∷ s),
        choose-append,
        words_from-separator (some c) [] (d ∷ s) sep t h low,
        words_from-separator (some c) (c ∷ []) (d ∷ s) sep t h low,
        words_from-separator (some c) (word ++ c ∷ []) (d ∷ s) sep t h low,
        flush-append,
        flush-append,
      )
      refl

any_member-append :
    (ws us vs : List Bytes) → any_member (ws ++ us) vs ≡ (any_member ws vs || any_member us vs)
unfolding any_member
any_member-append [] us vs = refl
any_member-append (w ∷ ws) us vs = ground (arith, any_member-append ws us vs)

-- A byte that is no letter or digit separates: what stands before it, unless that ends in an
-- upper-case letter, and what stands after it are split by themselves, and the field is sensitive
-- exactly when one of the two is.
pub sensitive-separator :
    (s : Bytes) (sep : ℕ) (t : Bytes)
    → is_alnum sep ≡ false
    → EndsLow s
    → (words (s ++ sep ∷ t) ≡ words s ++ words t)
      × (sensitive (s ++ sep ∷ t) ≡ (sensitive s || sensitive t))
unfolding words sensitive
sensitive-separator s sep t h low =
    let parts = words_from-separator none [] s sep t h low in
    (parts, rw parts (any_member-append (words s) (words t) sensitive_words))

upper-alnum : (c : ℕ) → is_upper c ≡ true → is_alnum c ≡ true
unfolding is_upper is_alnum
upper-alnum c h = ground arith

not_alnum-low : (c : ℕ) → is_alnum c ≡ false → (is_upper c ≡ false) × (is_digit c ≡ false)
unfolding is_upper is_alnum
not_alnum-low c h = ground arith

abbrev pub AllUpper : Bytes → Type 0
AllUpper = All (λ c. is_upper c ≡ true)

before_lower-upper :
    (u : Bytes) (c : ℕ) (t : Bytes)
    → AllUpper u
    → is_upper c ≡ true
    → before_lower (u ++ c ∷ t) ≡ false
before_lower-upper [] c t hu hc = rw hc refl
before_lower-upper (x ∷ u) c t hu hc = rw hu.0 refl

-- An upper-case letter between others goes on the word.
words_from-longer :
    (prev : Option ℕ) (word : Bytes) (x : ℕ) (rest : Bytes)
    → is_upper x ≡ true
    → after_lower prev ≡ false
    → before_lower rest ≡ false
    → words_from prev word (x ∷ rest) ≡ words_from (some x) (word ++ x ∷ []) rest
words_from-longer prev word x rest upper before after =
    words_from-cons prev word x rest
    ∙ (unfold choose in rw (upper-alnum x upper, upper, before, after) refl)

words_from-upper :
    (p : ℕ) (word u : Bytes) (c sep : ℕ) (t : Bytes)
    → is_upper p ≡ true
    → AllUpper u
    → is_upper c ≡ true
    → is_alnum sep ≡ false
    → words_from (some p) word (u ++ c ∷ sep ∷ t)
      ≡ flush (word ++ u) (to_lower (c ∷ []) ∷ words_from none [] t)
words_from-upper p word [] c sep t hp hu hc hs =
    let (low, no_digit) = not_alnum-low sep hs in
    rw append-nil (
      unfold words_from in
      rw (hc, upper-alnum c hc, hp, low, no_digit, hs) (rw (words_from-start (some sep) t) refl))
words_from-upper p word (x ∷ u) c sep t hp hu hc hs =
    words_from-longer (some p) word x (u ++ c ∷ sep ∷ t) hu.0 (rw hp refl)
      (before_lower-upper u c (sep ∷ t) hu.1 hc)
    ∙ words_from-upper x (word ++ x ∷ []) u c sep t hu.0 hu.1 hc hs
    ∙ ap (λ w. flush w (to_lower (c ∷ []) ∷ words_from none [] t)) (append_assoc word (x ∷ []) u)

-- An upper-case word of two or more letters before a separator loses its last letter, which becomes a
-- word of its own.
pub words-upper :
    (x : ℕ) (u : Bytes) (c sep : ℕ) (t : Bytes)
    → AllUpper (x ∷ u)
    → is_upper c ≡ true
    → is_alnum sep ≡ false
    → words (x ∷ u ++ c ∷ sep ∷ t) ≡ to_lower (x ∷ u) ∷ to_lower (c ∷ []) ∷ words t
unfolding words
words-upper x u c sep t hu hc hs =
    words_from-longer none [] x (u ++ c ∷ sep ∷ t) hu.0 refl
      (before_lower-upper u c (sep ∷ t) hu.1 hc)
    ∙ words_from-upper x (x ∷ []) u c sep t hu.0 hu.1 hc hs
