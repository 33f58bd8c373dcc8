-- ===== src/Metrics/Lv/Alias.antt =====
-- LabelValues.With on slices: an append writes into the array of its slice where there is room.
-- Arrays are numbered by their place in the heap. `grow` is the capacity that Go gives an array
-- for a number of items.
use kit_go.Prelude.{
  ℕ, zero, suc, ◌+◌, ◌-◌, ◌%◌, ◌≤◌, ◌<◌, ◌≡◌, refl, ap, ◌∙◌, String, List, [], ◌∷◌, ◌++◌, arith,
  length, length-append, take, ◌==◌, leb, if◌then◌else◌,
}
use native.Mathlib.Nat.{zero-add, suc-add}
use kit_go.Metrics.Lv.{with_values}

pub record Slice : Type 0 where
  pub array : ℕ
  pub len : ℕ
  pub cap : ℕ

abbrev pub Heap : Type 0
Heap = List (List String)

unfoldable pub array_at : Heap → ℕ → List String
array_at [] i = []
array_at (a ∷ h) zero = a
array_at (a ∷ h) (suc i) = array_at h i

set_array : Heap → ℕ → List String → Heap
set_array [] i b = []
set_array (a ∷ h) zero b = b ∷ h
set_array (a ∷ h) (suc i) b = a ∷ set_array h i b

pub contents : Heap → Slice → List String
unfolding array_at
contents h s = take s.len (array_at h s.array)

-- The cells from a position on, overwritten.
write_at : List String → ℕ → List String → List String
write_at cells zero [] = cells
write_at [] zero (x ∷ xs) = []
write_at (c ∷ cells) zero (x ∷ xs) = x ∷ write_at cells zero xs
write_at [] (suc n) xs = []
write_at (c ∷ cells) (suc n) xs = c ∷ write_at cells n xs

blank : ℕ → List String
blank zero = []
blank (suc n) = "" ∷ blank n

pub append_slice : (ℕ → ℕ) → Heap → Slice → List String → Heap × Slice
unfolding set_array write_at array_at blank
append_slice grow h s xs =
    let total = s.len + length xs in
    if leb total s.cap
    then (set_array h s.array (write_at (array_at h s.array) s.len xs), record s { len = total })
    else (
      h ++ (take s.len (array_at h s.array) ++ xs ++ blank (grow total - total)) ∷ [],
      record { array = length h; len = total; cap = grow total },
    )

unfoldable pub padded : List String → List String
padded xs = if length xs % 2 == 0 then xs else xs ++ "unknown" ∷ []

-- LabelValues.With. The variadic slice is made by the caller and belongs to the call.
pub with_slice : (ℕ → ℕ) → Heap → Slice → List String → Heap × Slice
unfolding padded
with_slice grow h s label_values = append_slice grow h s (padded label_values)

-- A slice lies in its array.
pub record Fits (h : Heap) (s : Slice) : Type 0 where
  pub in_heap : s.array < length h
  pub in_array : s.len ≤ s.cap
  pub sized : length (array_at h s.array) ≡ s.cap

take-write_at :
    (cells : List String) (n : ℕ) (xs : List String)
    → n + length xs ≤ length cells
    → take (n + length xs) (write_at cells n xs) ≡ take n cells ++ xs
unfolding write_at
take-write_at cells zero [] h = refl
take-write_at [] zero (x ∷ xs) h = absurd (omega arith)
take-write_at (c ∷ cells) zero (x ∷ xs) h =
    let rest : take (0 + length xs) (write_at cells 0 xs) ≡ xs =
      take-write_at cells zero xs (omega arith) in
    rw zero-add (ap (◌∷◌ x) (rw zero-add at rest))
take-write_at [] (suc n) xs h = absurd (omega arith)
take-write_at (c ∷ cells) (suc n) xs h =
    rw suc-add (ap (◌∷◌ c) (take-write_at cells n xs (omega arith)))

array_at-set_array :
    (h : Heap) (i : ℕ) (b : List String) → i < length h → array_at (set_array h i b) i ≡ b
unfolding array_at set_array
array_at-set_array [] i b lt = elim lt [ ]
array_at-set_array (a ∷ h) zero b lt = refl
array_at-set_array (a ∷ h) (suc i) b lt = array_at-set_array h i b (omega arith)

array_at-append_left :
    (h : Heap) (i : ℕ) (b : List String) → i < length h → array_at (h ++ b ∷ []) i ≡ array_at h i
unfolding array_at
array_at-append_left [] i b lt = elim lt [ ]
array_at-append_left (a ∷ h) zero b lt = refl
array_at-append_left (a ∷ h) (suc i) b lt = array_at-append_left h i b (omega arith)

array_at-append_self : (h : Heap) (b : List String) → array_at (h ++ b ∷ []) (length h) ≡ b
unfolding array_at
array_at-append_self [] b = refl
array_at-append_self (a ∷ h) b = array_at-append_self h b

length-set_array : (h : Heap) (i : ℕ) (b : List String) → length (set_array h i b) ≡ length h
unfolding set_array
length-set_array [] i b = refl
length-set_array (a ∷ h) zero b = refl
length-set_array (a ∷ h) (suc i) b = ap suc (length-set_array h i b)

length-write_at :
    (cells : List String) (n : ℕ) (xs : List String) → length (write_at cells n xs) ≡ length cells
unfolding write_at
length-write_at cells zero [] = refl
length-write_at [] zero (x ∷ xs) = refl
length-write_at (c ∷ cells) zero (x ∷ xs) = ap suc (length-write_at cells zero xs)
length-write_at [] (suc n) xs = refl
length-write_at (c ∷ cells) (suc n) xs = ap suc (length-write_at cells n xs)

take_before :
    (cells : List String) (n : ℕ) (xs : List String) → take n (write_at cells n xs) ≡ take n cells
unfolding write_at
take_before cells zero xs = refl
take_before [] (suc n) xs = refl
take_before (c ∷ cells) (suc n) xs = ap (◌∷◌ c) (take_before cells n xs)

module _ (h : Heap) (s : Slice) (xs : List String) (fits : Fits h s) where
  abbrev written : Heap
  written = set_array h s.array (write_at (array_at h s.array) s.len xs)

  cells_written : array_at written s.array ≡ write_at (array_at h s.array) s.len xs
  cells_written = array_at-set_array h s.array _ fits.in_heap

  Fits-written : Fits written s
  Fits-written = record {
    in_heap = rw length-set_array fits.in_heap;
    in_array = fits.in_array;
    sized = rw (cells_written, length-write_at (array_at h s.array) s.len xs) fits.sized;
  }

  contents-written_before : contents written s ≡ contents h s
  unfolding contents
  contents-written_before = rw cells_written (take_before (array_at h s.array) s.len xs)

  contents-written :
      s.len + length xs ≤ s.cap
      → contents written (record s { len = s.len + length xs }) ≡ contents h s ++ xs
  unfolding contents
  contents-written room =
      rw cells_written (take-write_at (array_at h s.array) s.len xs (omega (arith, fits.sized)))

  append_in_place :
      (grow : ℕ → ℕ)
      → s.len + length xs ≤ s.cap
      → append_slice grow h s xs ≡ (written, record s { len = s.len + length xs })
  unfolding append_slice
  append_in_place grow room = ground arith

-- Where the array of the slice has room for what is added, `With` writes it there: a second call
-- on the same slice, with as much to add, overwrites the values of the first, whose result then
-- reads as the second one's.
pub with_overwrites :
    (grow : ℕ → ℕ) (h : Heap) (s : Slice) (first second : List String)
    → Fits h s
    → s.len + length (padded first) ≤ s.cap
    → length (padded first) ≡ length (padded second)
    → let a = with_slice grow h s first in
      let b = with_slice grow a.0 s second in contents b.0 a.1 ≡ with_values (contents h s) second
unfolding with_slice with_values
with_overwrites grow h s first second fits room same =
    let h' = written h s (padded first) fits in
    let fits' = Fits-written h s (padded first) fits in
    let room' : s.len + length (padded second) ≤ s.cap = omega arith in
    let shape : s.len + length (padded first) ≡ s.len + length (padded second) = omega arith in
    rw
      (
        append_in_place h s (padded first) fits grow room,
        append_in_place h' s (padded second) fits' grow room',
        shape,
      )
      (contents-written h' s (padded second) fits' room'
        ∙ ap (λ l. l ++ padded second) (contents-written_before h s (padded first) fits))

module _ (h : Heap) (s : Slice) (xs : List String) (grow : ℕ → ℕ) where
  fresh_array : List String
  fresh_array =
      take s.len (array_at h s.array)
      ++ xs
      ++ blank (grow (s.len + length xs) - (s.len + length xs))

  append_fresh :
      s.cap < s.len + length xs
      → append_slice grow h s xs ≡ (
        h ++ fresh_array ∷ [],
        record { array = length h; len = s.len + length xs; cap = grow (s.len + length xs) },
      )
  unfolding append_slice fresh_array
  append_fresh full = ground arith

length-take : (n : ℕ) (l : List String) → n ≤ length l → length (take n l) ≡ n
length-take zero l h = refl
length-take (suc n) [] h = absurd (omega arith)
length-take (suc n) (x ∷ l) h = ap suc (length-take n l (omega arith))

take-append :
    (pre xs ys : List String) (n : ℕ)
    → n ≡ length pre + length xs
    → take n (pre ++ xs ++ ys) ≡ pre ++ xs
take-append [] [] ys zero h = refl
take-append [] [] ys (suc n) h = absurd (omega arith)
take-append [] (x ∷ xs) ys zero h = absurd (omega arith)
take-append [] (x ∷ xs) ys (suc n) h = ap (◌∷◌ x) (take-append [] xs ys n (omega arith))
take-append (x ∷ pre) xs ys zero h = absurd (omega arith)
take-append (x ∷ pre) xs ys (suc n) h = ap (◌∷◌ x) (take-append pre xs ys n (omega arith))

-- Where there is no room, `With` makes a new array: the result of the first call reads as it
-- should also after the second.
pub with_fresh :
    (grow : ℕ → ℕ) (h : Heap) (s : Slice) (first second : List String)
    → Fits h s
    → s.cap < s.len + length (padded first)
    → s.cap < s.len + length (padded second)
    → let a = with_slice grow h s first in
      let b = with_slice grow a.0 s second in contents b.0 a.1 ≡ with_values (contents h s) first
unfolding with_slice with_values fresh_array
with_fresh grow h s first second fits full full' =
    let a = fresh_array h s (padded first) grow in
    let h' = h ++ a ∷ [] in
    let b = fresh_array h' s (padded second) grow in
    let there : length h < length h' = omega (arith, length-append h (a ∷ [])) in
    rw (append_fresh h s (padded first) grow full, append_fresh h' s (padded second) grow full')
      (unfold contents in
        rw (array_at-append_left h' (length h) b there, array_at-append_self h a)
          (take-append (take s.len (array_at h s.array)) (padded first) _ _
            (omega (arith, length-take s.len (array_at h s.array), fits.sized, fits.in_array))))
