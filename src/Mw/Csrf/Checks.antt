-- ===== src/Mw/Csrf/Checks.antt =====
-- What core/mw/csrf.go lets through.
use howl_go.Prelude.{
  ◌≡◌, refl, ◌≢◌, ◌↔◌, ◌⊎◌, inl, inr, Bool, true, false, not, ◌||◌, Option, [], ◌∷◌, Bytes, codes,
  str_eq_iff, is_nil, if◌then◌else◌, arith,
}
use howl_go.Mw.Csrf.{
  Csrf, Request, passed, on_reject, forbidden, or, safe_method, constant_equal, submitted,
  cookie_token, origin_ok, decide, handler,
}

constant_equal_iff : (a b : Bytes) → (constant_equal a b ≡ true) ↔ ((a ≢ []) × (a ≡ b))
unfolding constant_equal
constant_equal_iff [] b = (λ h. absurd (ground arith), λ h. absurd (h.0 refl))
constant_equal_iff (x ∷ a) [] = (λ h. absurd (ground arith), λ h. absurd (ground (arith, h.1)))
constant_equal_iff (x ∷ a) (y ∷ b) =
    (λ h. (λ e. cc, (str_eq_iff (x ∷ a) (y ∷ b)).0 h), λ h. (str_eq_iff (x ∷ a) (y ∷ b)).1 h.1)

outcome_iff :
    (safe origin equal custom : Bool) (token t : Bytes)
    → ((if safe
          then passed token
          else if not origin || not equal
          then (if custom then on_reject token else forbidden)
          else passed token)
        ≡ passed t)
      ↔ ((t ≡ token) × ((safe ≡ true) ⊎ ((origin ≡ true) × (equal ≡ true))))
outcome_iff true origin equal custom token t = (λ h. (cc, inl refl), λ h. cc)
outcome_iff false true true custom token t = (λ h. (cc, inr (refl, refl)), λ h. cc)
outcome_iff false true false true token t =
    (λ h. cc, λ h. elim h.1 [ inl s ↦ cc | inr v ↦ absurd (ground arith) ])
outcome_iff false true false false token t =
    (λ h. cc, λ h. elim h.1 [ inl s ↦ cc | inr v ↦ absurd (ground arith) ])
outcome_iff false false equal true token t =
    (λ h. cc, λ h. elim h.1 [ inl s ↦ cc | inr v ↦ absurd (ground arith) ])
outcome_iff false false equal false token t =
    (λ h. cc, λ h. elim h.1 [ inl s ↦ cc | inr v ↦ absurd (ground arith) ])

-- the token of the request: its cookie's, or else the fresh one
abbrev pub token_of : Csrf → Bytes → Request → Bytes
token_of c fresh r =
    let token = cookie_token (r.cookie (or c.cookie_name (codes "csrf"))) in
    if is_nil token then fresh else token

-- the token the request sends back
abbrev pub echoed : Csrf → Request → Bytes
echoed c r =
    submitted r (or c.header_name (codes "X-CSRF-Token")) (or c.field_name (codes "csrf_token"))

module _ (equal_fold : Bytes → Bytes → Bool) (parse_url : Bytes → Option (Bytes × Bytes)) where
  handler-decide :
      (c : Csrf) (fresh : Bytes) (r : Request)
      → (handler equal_fold parse_url c fresh r).1
        ≡ decide equal_fold parse_url c r (token_of c fresh r)
  unfolding handler
  handler-decide c fresh r = ground arith

  -- the two checks of a request that changes state
  abbrev pub Vouched : Csrf → Request → Bytes → Type 0
  Vouched c r token =
      (origin_ok equal_fold parse_url c r ≡ true) × (token ≢ []) × (token ≡ echoed c r)

  decide_iff :
      (c : Csrf) (r : Request) (token t : Bytes)
      → (decide equal_fold parse_url c r token ≡ passed t)
        ↔ ((t ≡ token) × ((safe_method r.method ≡ true) ⊎ Vouched c r token))
  decide_iff c r token t =
      let equal = constant_equal_iff token (echoed c r) in
      let (forth, back) =
        outcome_iff (safe_method r.method) (origin_ok equal_fold parse_url c r)
          (constant_equal token (echoed c r)) c.has_on_reject token t in
      (
        λ h. (
          (forth h).0,
          elim (forth h).1 [ inl s ↦ inl s | inr v ↦ inr (v.0, (equal.0 v.1).0, (equal.0 v.1).1) ],
        ),
        λ h. back (h.0, elim h.1 [ inl s ↦ inl s | inr v ↦ inr (v.0, equal.1 (v.1, v.2)) ]),
      )

  -- The next handler runs, with a token on its context, exactly when that is the request's token and
  -- the method is safe, or the origin is good and the request sends that token back, which is not
  -- empty.
  pub passed_iff :
      (c : Csrf) (fresh : Bytes) (r : Request) (t : Bytes)
      → ((handler equal_fold parse_url c fresh r).1 ≡ passed t) ↔ (
          (t ≡ token_of c fresh r)
          × ((safe_method r.method ≡ true) ⊎ Vouched c r (token_of c fresh r)))
  passed_iff c fresh r t = rw (handler-decide c fresh r) (decide_iff c r (token_of c fresh r) t)
