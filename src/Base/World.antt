-- ===== src/Base/World.antt =====
-- Actions of C code on an outside world `W`: a call returns its result and the world after it.
abbrev pub Action {ℓ κ} : Type ℓ → Type κ → Type (ℓ ⊔ κ)
Action W A = W → A × W

module _ {ℓ} {W : Type ℓ} where
  abbrev pub pure {κ} : {A : Type κ} → A → Action W A
  pure a w = (a, w)

  infixl 5 ◌>>=◌ ◌>>◌
  abbrev pub ◌>>=◌ {κ μ} : {A : Type κ} {B : Type μ} → Action W A → (A → Action W B) → Action W B
  ◌>>=◌ m f w = let (a, w') = m w in f a w'

  abbrev pub ◌>>◌ {κ μ} : {A : Type κ} {B : Type μ} → Action W A → Action W B → Action W B
  m >> k = m >>= λ _. k
