-- ===== src/Mw/Ratelimit/Victims.antt =====
-- Which bucket makes room, and what a refused request is told: core/mw/ratelimit.go.
use howl_go.Prelude.{ℕ, zero, suc, ◌≡◌, ◌≤◌, false, some, List, [], ◌∷◌, Bytes, arith}
use howl_go.Mw.Ratelimit.{
  Bucket, Floats, Limiter, Rate, is_spare, decision, spend, take, handler, refused,
}

abbrev pub first : {A : Type 0} → ℕ → List A → List A
first zero xs = []
first (suc n) [] = []
first (suc n) (x ∷ xs) = x ∷ first n xs

module _ {F : Type 0} (N : Floats F) (now : ℕ) where
  -- a bucket that refuses
  abbrev pub Refuses : Bucket F → Type 0
  Refuses b = is_spare N now b ≡ false

module _ {F : Type 0} (N : Floats F) where
  -- A request that is refused has nothing remaining, and is told to wait for a second at least.
  pub handler-refused :
      (r : Rate) (name : Bytes) (now limit remaining reset retry : ℕ) (l l' : Limiter F)
      → handler N r name now l ≡ some (refused limit remaining reset retry, l')
      → (limit ≡ r.requests) × (remaining ≡ 0) × (1 ≤ retry)
  unfolding handler take spend decision
  handler-refused r name now limit remaining reset retry l l' h = ground arith
