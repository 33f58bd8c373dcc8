-- ===== src/Metrics/Generic/Interleaving/Linear.antt =====
-- Whatever the schedule, the operations take effect one after another.
use kit_go.Prelude.{
  ℕ, zero, suc, ◌+◌, ◌≡◌, ◌↔◌, refl, sym, ap, ◌∙◌, Bool, true, List, [], ◌∷◌, ◌++◌, arith,
}
use kit_go.Prelude.Tally.{tally, tally-append}
use kit_go.Metrics.Generic.{
  Op, adds, resets, sets, Thread, ready, loaded, finished, load, add_swap, reset_swap, store,
}
use kit_go.Metrics.Generic.Interleaving.{
  State, option_list, turn, move, step, run, apply, apply_all,
}

module _ {V : Type 0} (same : V → V → Bool) (plus : V → V → V) (zero_bits : V) where
  abbrev go : State V → List ℕ → State V
  go s schedule = run same plus zero_bits schedule s

  module _ (same_iff : (a b : V) → (same a b ≡ true) ↔ (a ≡ b)) where
    turn_bits :
        (t : Thread V) (bits : V)
        → (turn same plus zero_bits t bits).bits
          ≡ apply_all plus zero_bits (option_list (turn same plus zero_bits t bits).effect) bits
    unfolding turn load add_swap reset_swap store apply_all apply
    turn_bits (ready (adds delta)) bits = refl
    turn_bits (ready resets) bits = refl
    turn_bits (ready (sets value)) bits = refl
    turn_bits (loaded (adds delta) old) bits = ground (arith, same_iff bits old)
    turn_bits (loaded resets old) bits = ground (arith, same_iff bits old)
    turn_bits (loaded (sets value) old) bits = refl
    turn_bits (finished op old) bits = refl

    move_bits :
        (i : ℕ) (ts : List (Thread V)) (bits : V)
        → (move same plus zero_bits i ts bits).bits
          ≡ apply_all plus zero_bits (option_list (move same plus zero_bits i ts bits).effect) bits
    unfolding move apply_all
    move_bits i [] bits = refl
    move_bits zero (t ∷ ts) bits = turn_bits t bits
    move_bits (suc i) (t ∷ ts) bits = move_bits i ts bits

    apply_all-append :
        (xs ys : List (Op V)) (bits : V)
        → apply_all plus zero_bits (xs ++ ys) bits
          ≡ apply_all plus zero_bits ys (apply_all plus zero_bits xs bits)
    unfolding apply_all
    apply_all-append [] ys bits = refl
    apply_all-append (x ∷ xs) ys bits = apply_all-append xs ys (apply plus zero_bits x bits)

    run_bits :
        (schedule : List ℕ) (s : State V) (start : V)
        → s.bits ≡ apply_all plus zero_bits s.effects start
        → (go s schedule).bits ≡ apply_all plus zero_bits (go s schedule).effects start
    unfolding run step
    run_bits [] s start h = h
    run_bits (i ∷ schedule) s start h = run_bits schedule (step same plus zero_bits i s) start (
        move_bits i s.threads s.bits
        ∙ ap
            (apply_all plus zero_bits
              (option_list (move same plus zero_bits i s.threads s.bits).effect))
            h
        ∙ sym (apply_all-append s.effects _ start))

  -- The operation that a goroutine still has to bring about.
  abbrev pub pending : Thread V → List (Op V)
  pending (ready op) = op ∷ []
  pending (loaded op old) = op ∷ []
  pending (finished op old) = []

  pub all_pending : List (Thread V) → List (Op V)
  all_pending [] = []
  all_pending (t ∷ ts) = pending t ++ all_pending ts

  module _ (f : Op V → ℕ) where
    turn-pending :
        (t : Thread V) (bits : V)
        → let r = turn same plus zero_bits t bits in
          tally f (option_list r.effect) + tally f (pending r.thread) ≡ tally f (pending t)
    unfolding turn load add_swap reset_swap store tally
    turn-pending (ready (adds delta)) bits = omega arith
    turn-pending (ready resets) bits = omega arith
    turn-pending (ready (sets value)) bits = omega arith
    turn-pending (loaded (adds delta) old) bits = ground arith
    turn-pending (loaded resets old) bits = ground arith
    turn-pending (loaded (sets value) old) bits = omega arith
    turn-pending (finished op old) bits = omega arith

    move_pending :
        (i : ℕ) (ts : List (Thread V)) (bits : V)
        → let r = move same plus zero_bits i ts bits in
          tally f (option_list r.effect) + tally f (all_pending r.threads)
          ≡ tally f (all_pending ts)
    unfolding move all_pending tally
    move_pending i [] bits = omega arith
    move_pending zero (t ∷ ts) bits =
        let r = turn same plus zero_bits t bits in
        omega (
          arith,
          turn-pending t bits,
          tally-append f (pending t) (all_pending ts),
          tally-append f (pending r.thread) (all_pending ts),
        )
    move_pending (suc i) (t ∷ ts) bits =
        let r = move same plus zero_bits i ts bits in
        omega (
          arith,
          move_pending i ts bits,
          tally-append f (pending t) (all_pending ts),
          tally-append f (pending t) (all_pending r.threads),
        )

    run_pending :
        (schedule : List ℕ) (s : State V)
        → tally f (go s schedule).effects + tally f (all_pending (go s schedule).threads)
          ≡ tally f s.effects + tally f (all_pending s.threads)
    unfolding run step
    run_pending [] s = refl
    run_pending (i ∷ schedule) s =
        let r = move same plus zero_bits i s.threads s.bits in
        omega (
          arith,
          run_pending schedule (step same plus zero_bits i s),
          move_pending i s.threads s.bits,
          tally-append f s.effects (option_list r.effect),
        )

  abbrev pub initial : V → List (Thread V) → State V
  initial bits threads = record { bits = bits; threads = threads; effects = [] }

  -- Counters and gauges are linearizable: if the comparison is that of the bits, then after any
  -- schedule of the loads, swaps and stores of any number of goroutines the value is that of the
  -- operations which took effect, applied one after another to the first value; and these and
  -- those that are still pending are together the operations that the goroutines began with, each
  -- as often (for every weight `f` the sums are equal).
  pub run_linearizable :
      (same_iff : (a b : V) → (same a b ≡ true) ↔ (a ≡ b)) (f : Op V → ℕ)
      (threads : List (Thread V)) (bits : V) (schedule : List ℕ)
      → let s = run same plus zero_bits schedule (initial bits threads) in
        (s.bits ≡ apply_all plus zero_bits s.effects bits)
        × (tally f s.effects + tally f (all_pending s.threads) ≡ tally f (all_pending threads))
  run_linearizable same_iff f threads bits schedule = (
    run_bits same_iff schedule (initial bits threads) bits (unfold apply_all in refl),
    omega (arith, run_pending f schedule (initial bits threads), unfold_tally f),
  )
    where
      unfold_tally : (g : Op V → ℕ) → tally g [] ≡ 0
      unfold_tally g = unfold tally in refl
