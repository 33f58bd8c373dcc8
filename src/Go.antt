-- ===== src/Go.antt =====
-- What the modules share of Go itself: error values, and functions with effects.
use kit_go.Prelude.{String}

-- An error is known by its text: the program only asks whether it is nil and what it says.
pub record Error : Type 0 where
  pub message : String

-- errors.New
abbrev pub errors_new : String → Error
errors_new text = record { message = text }

-- A call reads and changes the state `W` of everything outside the function that is modelled.
abbrev pub Act {ℓ} : Type ℓ → Type ℓ → Type ℓ
Act W A = W → A × W

infixl 5 ◌>>=◌ ◌>>◌
abbrev pub ◌>>=◌ {ℓ} : {W A B : Type ℓ} → Act W A → (A → Act W B) → Act W B
◌>>=◌ m f w = let (a, w') = m w in f a w'

abbrev pub ◌>>◌ {ℓ} : {W A B : Type ℓ} → Act W A → Act W B → Act W B
m >> k = m >>= λ _. k

abbrev pub pure {ℓ} : {W A : Type ℓ} → A → Act W A
pure a w = (a, w)
