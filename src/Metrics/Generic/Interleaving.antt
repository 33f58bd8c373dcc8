-- ===== src/Metrics/Generic/Interleaving.antt =====
-- Goroutines on one metric, an atomic action at a time, in the order of a schedule.
pub mod Linear
pub mod Exact
use kit_go.Prelude.{ℕ, zero, suc, Bool, List, [], ◌∷◌, ◌++◌, Option, none, some}
use kit_go.Metrics.Generic.{
  Op, adds, resets, sets, Thread, ready, loaded, finished, Turn, load, add_swap, reset_swap, store,
}

-- The metric, the goroutines, and the operations that took effect so far, in their order.
pub record State (V : Type 0) : Type 0 where
  pub bits : V
  pub threads : List (Thread V)
  pub effects : List (Op V)

abbrev pub option_list {ℓ} : {A : Type ℓ} → Option A → List A
option_list none = []
option_list (some a) = a ∷ []

-- The threads after an action of one of them, with the bits and the effect.
pub record Moved (V : Type 0) : Type 0 where
  pub threads : List (Thread V)
  pub bits : V
  pub effect : Option (Op V)

module _ {V : Type 0} (same : V → V → Bool) (plus : V → V → V) (zero_bits : V) where
  pub turn : Thread V → V → Turn V
  turn (ready (adds delta)) bits = load (adds delta) bits
  turn (ready resets) bits = load resets bits
  turn (ready (sets value)) bits = store value bits
  turn (loaded (adds delta) old) bits = add_swap same plus delta old bits
  turn (loaded resets old) bits = reset_swap same zero_bits old bits
  turn (loaded (sets value) old) bits = store value bits
  turn (finished op old) bits = record { thread = finished op old; bits = bits; effect = none }

  pub move : ℕ → List (Thread V) → V → Moved V
  move i [] bits = record { threads = []; bits = bits; effect = none }
  move zero (t ∷ ts) bits =
      let r = turn t bits in record { threads = r.thread ∷ ts; bits = r.bits; effect = r.effect }
  move (suc i) (t ∷ ts) bits =
      let r = move i ts bits in record { threads = t ∷ r.threads; bits = r.bits; effect = r.effect }

  pub step : ℕ → State V → State V
  step i s =
      let r = move i s.threads s.bits in
      record { bits = r.bits; threads = r.threads; effects = s.effects ++ option_list r.effect }

  pub run : List ℕ → State V → State V
  run [] s = s
  run (i ∷ schedule) s = run schedule (step i s)

module _ {V : Type 0} (plus : V → V → V) (zero_bits : V) where
  -- What an operation does, alone.
  pub apply : Op V → V → V
  apply (adds delta) bits = plus bits delta
  apply resets bits = zero_bits
  apply (sets value) bits = value

  pub apply_all : List (Op V) → V → V
  apply_all [] bits = bits
  apply_all (op ∷ ops) bits = apply_all ops (apply op bits)
