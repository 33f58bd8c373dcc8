-- ===== src/Metrics/Timer.antt =====
-- metrics/timer.go. `now` is time.Now in nanoseconds, `V` stands for float64, and `Floats` for what
-- is done with it; a time is a number of nanoseconds.
use kit_go.Prelude.{ℤ, pos, Bool, if◌then◌else◌}
use kit_go.Go.{Act}

-- float64 of a duration, the division, the test d < 0, and 0.
pub record Floats (V : Type 0) : Type 0 where
  pub of_duration : ℤ → V
  pub divide : V → V → V
  pub negative : V → Bool
  pub zero_value : V

pub record Timer (W V : Type 0) : Type 0 where
  pub h : V → W → W
  pub t : ℤ
  pub u : ℤ

module _ {W V : Type 0} where
  -- NewTimer, whose unit is time.Second.
  pub new_timer : Act W ℤ → (V → W → W) → Act W (Timer W V)
  new_timer now h w = let (t, w') = now w in (record { h = h; t = t; u = pos 1_000_000_000 }, w')

  -- ObserveDuration, where `since` is time.Since in nanoseconds.
  pub observe_duration : Floats V → (ℤ → Act W ℤ) → Timer W V → W → W
  observe_duration floats since timer w =
      let (elapsed, w') = since timer.t w in
      let d = floats.divide (floats.of_duration elapsed) (floats.of_duration timer.u) in
      timer.h (if floats.negative d then floats.zero_value else d) w'

  -- Unit
  pub unit : ℤ → Timer W V → Timer W V
  unit u timer = record timer { u = u }
