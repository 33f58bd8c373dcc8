-- ===== src/Sd/EndpointCache/Distinct.antt =====
-- Lists of instances: membership, its negation and distinctness through sort.Strings.
use mathlib.Core.List.{Memᴰ}
use mathlib.Core.List.Memᴰ.{head, tail}
use kit_go.Prelude.{◌≢◌, refl, sym, ◌∙◌, inl, inr, List, [], ◌∷◌, All, Bool-cases}
use kit_go.Prelude.Order.{Order}
use kit_go.Prelude.Sort.{insert, sort}

-- `a` is not in the list.
abbrev pub Absent {ℓ} : {A : Type ℓ} → A → List A → Type ℓ
Absent a = All (λ b. b ≢ a)

abbrev pub IsDistinct {ℓ} : {A : Type ℓ} → List A → Type ℓ
IsDistinct [] = Unit
IsDistinct (x ∷ xs) = Absent x xs × IsDistinct xs

module _ {ℓ} {A : Type ℓ} ⦃o : Order A⦄ where
  All-insert {κ} : (P : A → Type κ) (x : A) (l : List A) → P x → All P l → All P (insert x l)
  unfolding insert
  All-insert P x [] h a = (h, tt)
  All-insert P x (y ∷ ys) h a = elim (Bool-cases (o.le x y)) [
    | inl e ↦ rw e (h, a)
    | inr e ↦ rw e (a.0, All-insert P x ys h a.1)
  ]

  pub All-sort {κ} : (P : A → Type κ) (l : List A) → All P l → All P (sort l)
  unfolding sort
  All-sort P [] a = tt
  All-sort P (x ∷ xs) a = All-insert P x (sort xs) a.0 (All-sort P xs a.1)

  IsDistinct-insert : (x : A) (l : List A) → Absent x l → IsDistinct l → IsDistinct (insert x l)
  unfolding insert
  IsDistinct-insert x [] a d = (tt, tt)
  IsDistinct-insert x (y ∷ ys) a d = elim (Bool-cases (o.le x y)) [
    | inl e ↦ rw e (a, d)
    | inr e ↦
        rw e (All-insert (λ b. b ≢ y) x ys (λ p. a.0 (sym p)) d.0, IsDistinct-insert x ys a.1 d.1)
  ]

  pub IsDistinct-sort : (l : List A) → IsDistinct l → IsDistinct (sort l)
  unfolding sort
  IsDistinct-sort [] d = tt
  IsDistinct-sort (x ∷ xs) d =
      IsDistinct-insert x (sort xs) (All-sort (λ b. b ≢ x) xs d.0) (IsDistinct-sort xs d.1)

  mem-insert_self : (x : A) (l : List A) → Memᴰ x (insert x l)
  unfolding insert
  mem-insert_self x [] = head refl
  mem-insert_self x (y ∷ ys) = elim (Bool-cases (o.le x y)) [
    | inl e ↦ rw e (head refl)
    | inr e ↦ rw e (tail (mem-insert_self x ys))
  ]

  mem-insert_of_mem : (a x : A) (l : List A) → Memᴰ a l → Memᴰ a (insert x l)
  unfolding insert
  mem-insert_of_mem a x [] h = elim h [ ]
  mem-insert_of_mem a x (y ∷ ys) (head p) = elim (Bool-cases (o.le x y)) [
    | inl e ↦ rw e (tail (head p))
    | inr e ↦ rw e (head p)
  ]
  mem-insert_of_mem a x (y ∷ ys) (tail t) = elim (Bool-cases (o.le x y)) [
    | inl e ↦ rw e (tail (tail t))
    | inr e ↦ rw e (tail (mem-insert_of_mem a x ys t))
  ]

  pub mem-sort : (a : A) (l : List A) → Memᴰ a l → Memᴰ a (sort l)
  unfolding sort
  mem-sort a [] h = elim h [ ]
  mem-sort a (x ∷ xs) (head p) = rw p (mem-insert_self x (sort xs))
  mem-sort a (x ∷ xs) (tail t) = mem-insert_of_mem a x (sort xs) (mem-sort a xs t)

pub Absent-mem {ℓ} : {A : Type ℓ} {a b : A} {l : List A} → Absent a l → Memᴰ b l → a ≢ b
Absent-mem {l = []} a m = elim m [ ]
Absent-mem {l = x ∷ l} a (head p) = λ e. a.0 (sym (e ∙ p))
Absent-mem {l = x ∷ l} a (tail t) = Absent-mem a.1 t
