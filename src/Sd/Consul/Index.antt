-- ===== src/Sd/Consul/Index.antt =====
-- sd/consul/instancer.go: the index that the loop waits for, and its backoff.
use kit_go.Prelude.{
  ℕ, ◌≤◌, ◌<◌, ◌≡◌, refl, String, true, false, List, [], ◌∷◌, none, some, arith, if◌then◌else◌,
}
use kit_go.Conn.{minute}
use kit_go.Conn.Backoff.{IsJitter, exponential_bounds}
use kit_go.Sd.Instance.{sorted}
use kit_go.Sd.Instancer.Current.{state-update}
use kit_go.Sd.Consul.{
  Instancer, Outcome, stopped, failed, found, publish, back_off, round, loop, ten_milliseconds,
}

-- The bounds of a wait.
abbrev pub IsWait : ℕ → Type 0
IsWait d = (ten_milliseconds ≤ d) × (d ≤ minute)

module _ (scale : ℕ → ℕ) (j : IsJitter scale) where
  round-IsWait : (outcome : Outcome) (s : Instancer) → IsWait s.d → IsWait (round scale outcome s).d
  unfolding round publish back_off
  round-IsWait stopped s h = h
  round-IsWait (failed err) s (l, u) =
      let (a, b, c) = exponential_bounds scale s.d j u in (omega (arith, a, l), c)
  round-IsWait (found instances index) s (l, u) =
      let (a, b, c) = exponential_bounds scale s.d j u in ground (arith, a, c, l)

  -- Whatever is answered, the loop never waits less than ten milliseconds or more than a minute
  -- between two queries.
  pub loop-IsWait :
      (outcomes : List Outcome) (s : Instancer) → IsWait s.d → IsWait (loop scale outcomes s).d
  unfolding loop
  loop-IsWait [] s h = h
  loop-IsWait (outcome ∷ outcomes) s h =
      elim s.running
        as (λ b. IsWait (if b then loop scale outcomes (round scale outcome s) else s).d) [
          | true ↦ loop-IsWait outcomes (round scale outcome s) (round-IsWait outcome s h)
          | false ↦ h
        ]

module _ (scale : ℕ → ℕ) where
  round_behind :
      (s : Instancer) (instances : List String) (index : ℕ)
      → 0 < index
      → index < s.last_index
      → round scale (found instances index) s ≡ back_off scale (record s { last_index = 0 })
  unfolding round
  round_behind s instances index p q = ground (arith, p, q)

  round_ahead :
      (s : Instancer) (instances : List String) (index : ℕ)
      → 0 < index
      → s.last_index ≤ index
      → round scale (found instances index) s
        ≡ publish
            (record { instances = some instances; err = none })
            (record s { last_index = index; d = ten_milliseconds })
  unfolding round
  round_ahead s instances index p q = ground (arith, p, q)

  -- Instances whose index went back are not published; those of the next answer are, whatever its
  -- index is but 0, and the next wait is the shortest again.
  pub round_goes_back :
      (s : Instancer) (old new : List String) (i j : ℕ)
      → 0 < i
      → i < s.last_index
      → 0 < j
      → let s' = round scale (found old i) s in
        let s'' = round scale (found new j) s' in
        (s'.cache ≡ s.cache)
        × (s''.cache.state ≡ sorted (record { instances = some new; err = none }))
        × (s''.last_index ≡ j)
        × (s''.d ≡ ten_milliseconds)
  unfolding publish back_off
  round_goes_back s old new i j p q r =
      let s' = back_off scale (record s { last_index = 0 }) in
      rw (round_behind s old i p q, round_ahead s' new j r (omega arith))
        (refl, state-update (record { instances = some new; err = none }) s.cache, refl, refl)
