-- ===== src/Prelude/Tally.antt =====
-- Sums of a weight over a list, to compare lists up to the order of their items.
use Prim.Native.Nat.{ℕ, ◌+◌}
use mathlib.Core.Path.{◌≡◌}
use mathlib.Core.List.{List, [], ◌∷◌, ◌++◌}
use mathlib.Core.Option.{Option, none, some}
use native.Mathlib.Omega.{arith}

-- The sum of a weight over a list. Two lists with the same sums for every weight hold the same
-- items, each as often.
unfoldable pub tally {ℓ} : {A : Type ℓ} → (A → ℕ) → List A → ℕ
tally f [] = 0
tally f (x ∷ xs) = f x + tally f xs

pub tally-append {ℓ} :
    {A : Type ℓ} (f : A → ℕ) (xs ys : List A) → tally f (xs ++ ys) ≡ tally f xs + tally f ys
unfolding tally
tally-append f [] ys = omega arith
tally-append f (x ∷ xs) ys = omega (arith, tally-append f xs ys)

-- The weight of an item that may be missing.
abbrev pub weight {ℓ} : {C : Type ℓ} → (C → ℕ) → Option C → ℕ
weight f none = 0
weight f (some c) = f c
