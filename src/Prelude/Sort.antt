-- ===== src/Prelude/Sort.antt =====
-- sort.Strings: the sorted permutation of its input, here by insertion, for any total order.
use mathlib.Core.Path.{◌≡◌, refl, ◌∙◌}
use mathlib.Core.Logic.{inl, inr}
use mathlib.Core.Bool.{true}
use mathlib.Core.List.{List, [], ◌∷◌, Permᴰ}
use mathlib.Core.List.Permᴰ
use native.Mathlib.Omega.{arith}
use kit_go.Prelude.Tests.{if◌then◌else◌, Bool-cases}
use kit_go.Prelude.Lists.{All}
use kit_go.Prelude.Order.{Order}

module _ {ℓ} {A : Type ℓ} ⦃o : Order A⦄ where
  unfoldable pub insert : A → List A → List A
  insert x [] = x ∷ []
  insert x (y ∷ ys) = if o.le x y then x ∷ y ∷ ys else y ∷ insert x ys

  unfoldable pub sort : List A → List A
  unfolding insert
  sort [] = []
  sort (x ∷ xs) = insert x (sort xs)

  abbrev pub IsSorted : List A → Type ℓ
  IsSorted [] = Unit
  IsSorted (x ∷ xs) = All (λ y. o.le x y ≡ true) xs × IsSorted xs

  All-le_trans :
      (x y : A) (l : List A)
      → o.le x y ≡ true
      → All (λ z. o.le y z ≡ true) l
      → All (λ z. o.le x z ≡ true) l
  All-le_trans x y [] h a = tt
  All-le_trans x y (z ∷ l) h a = (o.trans x y z h a.0, All-le_trans x y l h a.1)

  All-insert :
      (x y : A) (l : List A)
      → o.le x y ≡ true
      → All (λ z. o.le x z ≡ true) l
      → All (λ z. o.le x z ≡ true) (insert y l)
  unfolding insert
  All-insert x y [] h a = (h, tt)
  All-insert x y (z ∷ l) h a = elim (Bool-cases (o.le y z)) [
    | inl e ↦ rw e (h, a)
    | inr e ↦ rw e (a.0, All-insert x y l h a.1)
  ]

  insert-IsSorted : (x : A) (l : List A) → IsSorted l → IsSorted (insert x l)
  unfolding insert
  insert-IsSorted x [] s = (tt, tt)
  insert-IsSorted x (y ∷ ys) s = elim (Bool-cases (o.le x y)) [
    | inl e ↦ rw e ((e, All-le_trans x y ys e s.0), s)
    | inr e ↦ rw e (All-insert y x ys (ground (arith, o.total x y)) s.0, insert-IsSorted x ys s.1)
  ]

  pub sort-IsSorted : (l : List A) → IsSorted (sort l)
  unfolding sort
  sort-IsSorted [] = tt
  sort-IsSorted (x ∷ xs) = insert-IsSorted x (sort xs) (sort-IsSorted xs)

  insert-perm : (x : A) (l : List A) → Permᴰ (insert x l) (x ∷ l)
  unfolding insert
  insert-perm x [] = Permᴰ.refl _
  insert-perm x (y ∷ ys) = elim (Bool-cases (o.le x y)) [
    | inl e ↦ rw e (Permᴰ.refl _)
    | inr e ↦ rw e (Permᴰ.trans (Permᴰ.cons refl (insert-perm x ys)) (Permᴰ.swap refl refl))
  ]

  -- The result has the items of the input.
  pub sort-perm : (l : List A) → Permᴰ (sort l) l
  unfolding sort
  sort-perm [] = Permᴰ.nil
  sort-perm (x ∷ xs) = Permᴰ.trans (insert-perm x (sort xs)) (Permᴰ.cons refl (sort-perm xs))

  insert-insert : (x y : A) (l : List A) → insert x (insert y l) ≡ insert y (insert x l)
  unfolding insert
  insert-insert x y [] = ground (arith, o.total x y, o.antisymm x y)
  insert-insert x y (z ∷ l) =
      ground (arith, o.total x y, o.antisymm x y, o.trans x y z, o.trans y x z, insert-insert x y l)

  -- The result does not depend on the order of the input.
  pub sort-eq_of_perm : {xs ys : List A} → Permᴰ xs ys → sort xs ≡ sort ys
  unfolding sort
  sort-eq_of_perm Permᴰ.nil = refl
  sort-eq_of_perm (Permᴰ.cons e p) = cc (e, sort-eq_of_perm p)
  sort-eq_of_perm (Permᴰ.swap {a} {b} {l} e f) = cc (e, f, insert-insert a b (sort l))
  sort-eq_of_perm (Permᴰ.trans p q) = sort-eq_of_perm p ∙ sort-eq_of_perm q
