-- ===== src/Db/Service/Reads/Keys.antt =====
-- Two keys are the same only for the same request at the same version: db/service.go.
use howl_go.Prelude.{ℕ, ◌≡◌, ◌++◌, ◌∷◌, Bytes, Free}
use howl_go.Db.Service.{DocumentType, Backend}
use howl_go.Db.Service.Reads.{Texts, Setup, space}

module _ {F S T K : Type 0} (D : DocumentType F T) (B : Backend F S) (C : Setup K) (X : Texts F)
    (plain : (n : ℕ) → Free b'.' (X.itoa n) × Free b':' (X.itoa n))
    (distinct : (m n : ℕ) → X.itoa m ≡ X.itoa n → m ≡ n) where
  abbrev key_text : ℕ → ℕ → Bytes → Bytes → Bytes
  key_text v l kind suffix = space D B C X v l ++ (kind ++ (b':' ∷ suffix))

  abbrev key_tail : ℕ → ℕ → Bytes → Bytes → Bytes
  key_tail v l kind suffix = X.itoa v ++ (b'.' ∷ (X.itoa l ++ (b':' ∷ (kind ++ (b':' ∷ suffix)))))
