-- ===== src/Prelude/Order.antt =====
-- Total orders as an interface, and Go's order of strings: byte by byte, which on UTF-8 is the
-- order of the code points.
use Prim.Native.Nat.{compare, Ordering}
use Prim.Native.Char.{code}
use Prim.Native.String.{String}
use mathlib.Core.Path.{◌≡◌, refl, ap₂}
use mathlib.Core.Logic.{◌⊎◌, inl, inr}
use mathlib.Core.Bool.{Bool, true, false}
use native.Mathlib.Omega.{arith}
use text.Mathlib.TextEquality.{Char-path}

pub record Order {ℓ} (A : Type ℓ) : Type ℓ where
  pub le : A → A → Bool
  pub total : (a b : A) → (le a b ≡ true) ⊎ (le b a ≡ true)
  pub trans : (a b c : A) → le a b ≡ true → le b c ≡ true → le a c ≡ true
  pub antisymm : (a b : A) → le a b ≡ true → le b a ≡ true → a ≡ b

pub str_le : String → String → Bool
str_le String.[] t = true
str_le (String.◌∷◌ c s) String.[] = false
str_le (String.◌∷◌ c s) (String.◌∷◌ d t) = elim (compare (code c) (code d)) [
  | Ordering.lt ↦ true
  | Ordering.eq ↦ str_le s t
  | Ordering.gt ↦ false
]

pub str_le_total : (s t : String) → (str_le s t ≡ true) ⊎ (str_le t s ≡ true)
unfolding str_le
str_le_total String.[] t = inl refl
str_le_total (String.◌∷◌ c s) String.[] = inr refl
str_le_total (String.◌∷◌ c s) (String.◌∷◌ d t) = ground (arith, str_le_total s t)

pub str_le_trans : (s t u : String) → str_le s t ≡ true → str_le t u ≡ true → str_le s u ≡ true
unfolding str_le
str_le_trans String.[] t u p q = refl
str_le_trans (String.◌∷◌ c s) String.[] u p q = ground arith
str_le_trans (String.◌∷◌ c s) (String.◌∷◌ d t) String.[] p q = ground arith
str_le_trans (String.◌∷◌ c s) (String.◌∷◌ d t) (String.◌∷◌ e u) p q =
    ground (arith, str_le_trans s t u)

pub str_le_antisymm : (s t : String) → str_le s t ≡ true → str_le t s ≡ true → s ≡ t
unfolding str_le
str_le_antisymm String.[] String.[] p q = refl
str_le_antisymm String.[] (String.◌∷◌ d t) p q = ground arith
str_le_antisymm (String.◌∷◌ c s) String.[] p q = ground arith
str_le_antisymm (String.◌∷◌ c s) (String.◌∷◌ d t) p q =
    let e : code c ≡ code d = ground arith in
    ap₂ String.◌∷◌ (Char-path c d e) (str_le_antisymm s t (ground arith) (ground arith))

instance abbrev pub string_order : Order String
string_order = record {
  le = str_le;
  total = str_le_total;
  trans = str_le_trans;
  antisymm = str_le_antisymm;
}
