-- ===== src/Metrics/Statsd/Lines/Complete.antt =====
-- metrics/statsd/statsd.go: what WriteTo returns and leaves, by how its three walks end.
use kit_go.Prelude.{
  String, Bool, true, false, ◌≡◌, refl, sym, ap, ◌∙◌, List, [], ◌∷◌, ◌++◌, none, some, arith,
  Option-cases, ◌⊎◌, inl, inr,
}
use kit_go.Go.{Error, Act}
use kit_go.Metrics.Lv.Space as Space
use kit_go.Metrics.Lv.Space.Walk.{walk}
use kit_go.Metrics.Lv.Space.Visited.{visits, walk-visits}
use kit_go.Transport.Http.Writer.{Sent}
use kit_go.Metrics.Statsd.{
  Floats, Statsd, Written, write_line, write_counter, write_gauge, write_timing, write_to,
}
use kit_go.Metrics.Statsd.Lines.{
  counter_lines, gauge_lines, timing_lines, lines, write_lines, write_lines-write_line,
  write_lines-append, visit_all-counter_lines, visit_all-gauge_lines, visit_all-timing_lines,
}

module _ {W : Type 0} (fprintf : String → Act W Sent) where
  -- How a sequence of lines ends that begins without an error.
  Ends : Bool × (W × Written) → Type 0
  Ends (go_on, st) =
      ((go_on ≡ true) × (st.1.err ≡ none)) ⊎ ((go_on ≡ false) × ((e : Error) × (st.1.err ≡ some e)))

  write_line-Ends : (l : String) (st : W × Written) → Ends (write_line fprintf l st)
  unfolding Ends write_line
  write_line-Ends l (w, written) =
      let (sent, w') = fprintf l w in
      elim (Option-cases sent.err) [
        | inl p ↦ inl (ground (arith, p), ground (arith, p))
        | inr (e, p) ↦ inr (ground (arith, p), (e, ground (arith, p)))
      ]

  write_lines-Ends :
      (ls : List String) (st : W × Written) → st.1.err ≡ none → Ends (write_lines fprintf ls st)
  unfolding Ends write_lines
  write_lines-Ends [] st h = inl (refl, h)
  write_lines-Ends (l ∷ ls) st h =
      let (go_on, st') = write_line fprintf l st in
      elim (write_line-Ends l st) [
        | inl (p, q) ↦ rw (write_lines-write_line fprintf l ls st, p) (write_lines-Ends ls st' q)
        | inr (p, (e, q)) ↦ rw (write_lines-write_line fprintf l ls st, p) (inr (refl, (e, q)))
      ]

  stopped :
      (xs ys : List String) (st : W × Written)
      → (write_lines fprintf xs st).0 ≡ false
      → (write_lines fprintf (xs ++ ys) st).1 ≡ (write_lines fprintf xs st).1
  stopped xs ys st p = rw (write_lines-append fprintf xs ys st, p) refl

  passed :
      (xs ys : List String) (st : W × Written)
      → (write_lines fprintf xs st).0 ≡ true
      → (write_lines fprintf (xs ++ ys) st).1
        ≡ (write_lines fprintf ys (write_lines fprintf xs st).1).1
  passed xs ys st p = rw (write_lines-append fprintf xs ys st, p) refl

  module _ {V : Type 0} (floats : Floats V) (s : Statsd V) (w : W) where
    start : W × Written
    start = (w, record { count = 0; err = none })

    -- The three walks, each from where the one before it ended.
    counters_walked : W × Written
    unfolding start
    counters_walked = walk (write_counter fprintf floats s.rates) s.counters start

    gauges_walked : W × Written
    unfolding counters_walked
    gauges_walked = walk (write_gauge fprintf floats) s.gauges counters_walked

    timings_walked : W × Written
    unfolding gauges_walked
    timings_walked = walk (write_timing fprintf floats s.rates) s.timings gauges_walked

    counters_failed :
        (e : Error)
        → counters_walked.1.err ≡ some e
        → write_to fprintf floats s w ≡ (counters_walked, record s { counters = Space.new_space })
    unfolding write_to counters_walked start Space.reset
    counters_failed e p = simp (p, write_to)

    gauges_failed :
        (e : Error)
        → counters_walked.1.err ≡ none
        → gauges_walked.1.err ≡ some e
        → write_to fprintf floats s w
          ≡ (gauges_walked, record s { counters = Space.new_space; gauges = Space.new_space })
    unfolding write_to counters_walked gauges_walked start Space.reset
    gauges_failed e p q = simp (p, q, write_to)

    all_walked :
        counters_walked.1.err ≡ none
        → gauges_walked.1.err ≡ none
        → write_to fprintf floats s w ≡ (
          timings_walked,
          record s {
            counters = Space.new_space;
            gauges = Space.new_space;
            timings = Space.new_space;
          },
        )
    unfolding write_to counters_walked gauges_walked timings_walked start Space.reset
    all_walked p q = simp (p, q, write_to)

    cs : List String
    cs = counter_lines floats s.rates (visits s.counters)

    gs : List String
    gs = gauge_lines floats (visits s.gauges)

    ts : List String
    ts = timing_lines floats s.rates (visits s.timings)

    counters_walked-lines : counters_walked ≡ (write_lines fprintf cs start).1
    unfolding counters_walked cs
    counters_walked-lines =
        walk-visits (write_counter fprintf floats s.rates) s.counters start
        ∙ ap (λ r. r.1) (visit_all-counter_lines fprintf floats s.rates (visits s.counters) start)

    gauges_walked-lines : gauges_walked ≡ (write_lines fprintf gs counters_walked).1
    unfolding gauges_walked gs
    gauges_walked-lines =
        walk-visits (write_gauge fprintf floats) s.gauges counters_walked
        ∙ ap (λ r. r.1) (visit_all-gauge_lines fprintf floats (visits s.gauges) counters_walked)

    timings_walked-lines : timings_walked ≡ (write_lines fprintf ts gauges_walked).1
    unfolding timings_walked ts
    timings_walked-lines =
        walk-visits (write_timing fprintf floats s.rates) s.timings gauges_walked
        ∙ ap (λ r. r.1)
            (visit_all-timing_lines fprintf floats s.rates (visits s.timings) gauges_walked)

    -- WriteTo writes a line with the sum of each counter, one with the last value of each gauge and
    -- one for each value of a timing, with the rates below 1 of counters and timings, one after
    -- another, until a write fails; it returns the error of that write and the number of bytes of the
    -- writes before it, and it empties the counters, and without an error also the gauges and the
    -- timings.
    pub write_to-lines :
        (((write_to fprintf floats s w).0
            ≡ (write_lines fprintf (lines floats s) (w, record { count = 0; err = none })).1)
          × ((write_to fprintf floats s w).1.counters ≡ Space.new_space)
          × (((e : Error) × ((write_to fprintf floats s w).0.1.err ≡ some e))
              ⊎ (((write_to fprintf floats s w).1.gauges ≡ Space.new_space)
                  × ((write_to fprintf floats s w).1.timings ≡ Space.new_space))))
    unfolding lines Ends start cs gs ts
    write_to-lines = elim (write_lines-Ends cs start refl) [
      | inr (p, (e, q)) ↦
          let failed = ap (λ x. x.1.err) counters_walked-lines ∙ q in
          rw (counters_failed e failed)
            (counters_walked-lines ∙ sym (stopped cs (gs ++ ts) start p), refl, inl (e, failed))
      | inl (p, q) ↦
          let none₁ = ap (λ x. x.1.err) counters_walked-lines ∙ q in
          let rest : (write_lines fprintf (cs ++ (gs ++ ts)) start).1
              ≡ (write_lines fprintf (gs ++ ts) counters_walked).1 =
            passed cs (gs ++ ts) start p
            ∙ ap (λ x. (write_lines fprintf (gs ++ ts) x).1) (sym counters_walked-lines) in
          elim (write_lines-Ends gs counters_walked none₁) [
            | inr (p', (e, q')) ↦
                let failed = ap (λ x. x.1.err) gauges_walked-lines ∙ q' in
                rw (gauges_failed e none₁ failed) (
                  gauges_walked-lines ∙ sym (rest ∙ stopped gs ts counters_walked p'),
                  refl,
                  inl (e, failed),
                )
            | inl (p', q') ↦
                let none₂ = ap (λ x. x.1.err) gauges_walked-lines ∙ q' in
                rw (all_walked none₁ none₂) (
                  timings_walked-lines
                      ∙ sym (
                          rest
                          ∙ passed gs ts counters_walked p'
                          ∙ ap (λ x. (write_lines fprintf ts x).1) (sym gauges_walked-lines)),
                  refl,
                  inr (refl, refl),
                )
          ]
    ]
