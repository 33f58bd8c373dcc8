-- ===== src/Transport/Amqp/Publisher/Correlation.antt =====
-- transport/amqp: util.go and the correlation id that an endpoint of publisher.go makes.
use kit_go.Prelude.{ℕ, zero, suc, ◌+◌, ◌≤◌, ◌<◌, ◌≡◌, refl, arith, length, All}
use kit_go.Transport.Amqp.{Library, rand_int, random_string}
use kit_go.Transport.Amqp.Publisher.{new_correlation_id}

-- A capital letter before Z.
abbrev pub IsLetter : ℕ → Type 0
IsLetter c = (65 ≤ c) × (c < 90)

module _ {W Ctx D : Type 0} (lib : Library W Ctx D)
    (intn-lt : (n : ℕ) (w : W) → 0 < n → (lib.intn n w).0 < n) where
  length-random_string : (l : ℕ) (w : W) → length (random_string lib l w).0 ≡ l
  unfolding random_string
  length-random_string zero w = refl
  length-random_string (suc l) w = omega (arith, length-random_string l (rand_int lib 65 90 w).1)

  random_string-IsLetter : (l : ℕ) (w : W) → All IsLetter (random_string lib l w).0
  unfolding random_string rand_int
  random_string-IsLetter zero w = tt
  random_string-IsLetter (suc l) w =
      let h : (lib.intn 25 w).0 < 25 = intn-lt 25 w (omega arith) in
      ((omega (arith, h), omega (arith, h)), random_string-IsLetter l (rand_int lib 65 90 w).1)

  -- If Intn returns numbers below its argument, a correlation id has at least 5 and at most 254
  -- bytes, fewer than AMQP allows, and all of them are letters from A to Y.
  pub new_correlation_id_bounds :
      (w : W)
      → (5 ≤ length (new_correlation_id lib w).0)
        × (length (new_correlation_id lib w).0 ≤ 254)
        × All IsLetter (new_correlation_id lib w).0
  unfolding new_correlation_id rand_int
  new_correlation_id_bounds w =
      let (n, w₁) = lib.intn 250 w in
      let h : n < 250 = intn-lt 250 w (omega arith) in
      (
        omega (arith, h, length-random_string (5 + n) w₁),
        omega (arith, h, length-random_string (5 + n) w₁),
        random_string-IsLetter (5 + n) w₁,
      )
