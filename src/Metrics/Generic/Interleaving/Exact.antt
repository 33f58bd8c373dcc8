-- ===== src/Metrics/Generic/Interleaving/Exact.antt =====
-- Counters over whole numbers, where the addition is exact: what Add puts in, ValueReset takes
-- out once.
use kit_go.Prelude.{ℕ, zero, suc, ◌+◌, ◌≡◌, refl, ◌==◌, Bool, List, [], ◌∷◌, arith}
use kit_go.Metrics.Generic.{
  adds, resets, sets, Thread, ready, loaded, finished, load, add_swap, reset_swap,
}
use kit_go.Metrics.Generic.Interleaving.{State, turn, move, step, run}
use kit_go.Metrics.Generic.Interleaving.Linear.{initial}

abbrev plus : ℕ → ℕ → ℕ
plus a b = a + b

abbrev pub IsCounting : Thread ℕ → Type 0
IsCounting (ready (sets value)) = ⊥
IsCounting (loaded (sets value) old) = ⊥
IsCounting (finished (sets value) old) = ⊥
IsCounting _ = Unit

abbrev pub AllCounting : List (Thread ℕ) → Type 0
AllCounting [] = Unit
AllCounting (t ∷ ts) = IsCounting t × AllCounting ts

-- What a goroutine still has to add, or was returned by ValueReset.
abbrev pub share : Thread ℕ → ℕ
share (ready (adds delta)) = delta
share (loaded (adds delta) old) = delta
share (finished resets old) = old
share _ = 0

pub shares : List (Thread ℕ) → ℕ
shares [] = 0
shares (t ∷ ts) = share t + shares ts

abbrev eq_ℕ : ℕ → ℕ → Bool
eq_ℕ a b = a == b

turn-share :
    (t : Thread ℕ) (bits : ℕ)
    → IsCounting t
    → let r = turn eq_ℕ plus 0 t bits in
      (r.bits + share r.thread ≡ bits + share t) × IsCounting r.thread
unfolding turn load add_swap reset_swap
turn-share (ready (adds delta)) bits c = (refl, tt)
turn-share (ready resets) bits c = (refl, tt)
turn-share (ready (sets value)) bits c = absurd c
turn-share (loaded (adds delta) old) bits c = (ground arith, ground arith)
turn-share (loaded resets old) bits c = (ground arith, ground arith)
turn-share (loaded (sets value) old) bits c = absurd c
turn-share (finished op old) bits c = (refl, c)

move-shares :
    (i : ℕ) (ts : List (Thread ℕ)) (bits : ℕ)
    → AllCounting ts
    → let r = move eq_ℕ plus 0 i ts bits in
      (r.bits + shares r.threads ≡ bits + shares ts) × AllCounting r.threads
unfolding move shares
move-shares i [] bits c = (refl, tt)
move-shares zero (t ∷ ts) bits c = let (p, q) = turn-share t bits c.0 in (omega arith, (q, c.1))
move-shares (suc i) (t ∷ ts) bits c =
    let (p, q) = move-shares i ts bits c.1 in (omega arith, (c.0, q))

run-shares :
    (schedule : List ℕ) (s : State ℕ)
    → AllCounting s.threads
    → let t = run eq_ℕ plus 0 schedule s in t.bits + shares t.threads ≡ s.bits + shares s.threads
unfolding run step
run-shares [] s c = refl
run-shares (i ∷ schedule) s c =
    let (p, q) = move-shares i s.threads s.bits c in
    omega (arith, run-shares schedule (step eq_ℕ plus 0 i s) q)

-- With exact addition, and goroutines that only add and reset: under any schedule, the value of
-- the counter, what the resets returned so far and what is still to be added make up the first
-- value and all that was to be added. So no delta is lost, and none is returned by two resets.
pub run_exact :
    (threads : List (Thread ℕ)) (bits : ℕ) (schedule : List ℕ)
    → AllCounting threads
    → let s =
        run
          (λ a b. a == b)
          (λ a b. a + b)
          0
          schedule
          (initial (λ a b. a == b) (λ a b. a + b) 0 bits threads) in
      s.bits + shares s.threads ≡ bits + shares threads
run_exact threads bits schedule c =
    run-shares schedule (record { bits = bits; threads = threads; effects = [] }) c
