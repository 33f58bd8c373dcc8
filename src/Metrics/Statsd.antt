-- ===== src/Metrics/Statsd.antt =====
-- metrics/statsd/statsd.go. `V` stands for float64, and `Floats` for what is done with it. The
-- writer is in the outside `W`, and what Fprintf returns is `Sent`. WriteLoop, SendLoop and logging
-- are left out.
pub mod Lines
use Prim.Native.String.{◌++◌ as str_append}
use kit_go.Prelude.{
  ℕ, ◌+◌, String, Bool, true, false, List, [], ◌∷◌, Option, none, some, if◌then◌else◌,
}
use kit_go.Go.{Error, Act}
use kit_go.Metrics.Ratemap.{RateMap, new_rate_map, set_rate, get_rate}
use kit_go.Metrics.Lv.Space as Space
use kit_go.Metrics.Lv.Space.Walk.{walk}
use kit_go.Transport.Http.Writer.{Sent}

-- 0 and 1, the addition, the test r < 1.0 and the printing with the verb %f.
pub record Floats (V : Type 0) : Type 0 where
  pub zero_value : V
  pub one : V
  pub add : V → V → V
  pub below_one : V → Bool
  pub print : V → String

pub record Statsd (V : Type 0) : Type 0 where
  pub prefix : String
  pub rates : RateMap V
  pub counters : Space.Space V
  pub gauges : Space.Space V
  pub timings : Space.Space V

module _ {V : Type 0} where
  -- New
  pub new_statsd : String → Statsd V
  unfolding new_rate_map Space.new_space
  new_statsd prefix = record {
    prefix = prefix;
    rates = new_rate_map;
    counters = Space.new_space;
    gauges = Space.new_space;
    timings = Space.new_space;
  }

  -- NewCounter and NewTiming: the metric is known by its name.
  pub new_counter : String → V → Statsd V → String × Statsd V
  unfolding set_rate
  new_counter name sample_rate s =
      let name' = str_append s.prefix name in
      (name', record s { rates = set_rate name' sample_rate s.rates })

  pub new_timing : String → V → Statsd V → String × Statsd V
  unfolding set_rate
  new_timing name sample_rate s =
      let name' = str_append s.prefix name in
      (name', record s { rates = set_rate name' sample_rate s.rates })

  -- NewGauge
  pub new_gauge : String → Statsd V → String
  new_gauge name s = str_append s.prefix name

  -- Counter.Add, Gauge.Set and Timing.Observe, where a panic is `none`.
  pub counter_add : String → V → Statsd V → Option (Statsd V)
  unfolding Space.observe
  counter_add name delta s = elim (Space.observe name [] delta s.counters) [
    | none ↦ none
    | some space ↦ some (record s { counters = space })
  ]

  pub gauge_set : String → V → Statsd V → Option (Statsd V)
  unfolding Space.observe
  gauge_set name value s = elim (Space.observe name [] value s.gauges) [
    | none ↦ none
    | some space ↦ some (record s { gauges = space })
  ]

  pub gauge_add : (V → V → V) → String → V → Statsd V → Option (Statsd V)
  unfolding Space.add
  gauge_add add name delta s = elim (Space.add add name [] delta s.gauges) [
    | none ↦ none
    | some space ↦ some (record s { gauges = space })
  ]

  pub timing_observe : String → V → Statsd V → Option (Statsd V)
  unfolding Space.observe
  timing_observe name value s = elim (Space.observe name [] value s.timings) [
    | none ↦ none
    | some space ↦ some (record s { timings = space })
  ]

-- What WriteTo returns.
pub record Written : Type 0 where
  pub count : ℕ
  pub err : Option Error

module _ {V : Type 0} (floats : Floats V) where
  -- The loop of sum, from a first value.
  sum_from : V → List V → V
  sum_from v [] = v
  sum_from v (f ∷ a) = sum_from (floats.add v f) a

  pub sum : List V → V
  unfolding sum_from
  sum a = sum_from floats.zero_value a

  -- last, from an element before.
  last_after : V → List V → V
  last_after v [] = v
  last_after v (f ∷ a) = last_after f a

  pub sampling : V → String
  sampling r = if floats.below_one r then str_append "|@" (floats.print r) else ""

  -- A line: the name, the value, and what follows.
  pub line : String → V → String → String
  line name value suffix =
      str_append name (str_append ":" (str_append (floats.print value) (str_append suffix "\n")))

  pub counter_line : RateMap V → String → List V → String
  unfolding sum sampling line get_rate
  counter_line rates name values =
      line name (sum values) (str_append "|c" (sampling (get_rate floats.one name rates)))

  pub timing_line : RateMap V → String → V → String
  unfolding sampling line get_rate
  timing_line rates name value =
      line name value (str_append "|ms" (sampling (get_rate floats.one name rates)))

module _ {W : Type 0} (fprintf : String → Act W Sent) where
  -- A call of Fprintf in a function that is walked with, and the test after it.
  unfoldable pub write_line : String → Act (W × Written) Bool
  write_line text (w, written) =
      let (sent, w') = fprintf text w in
      elim sent.err [
        | some e ↦ (false, (w', record written { err = some e }))
        | none ↦ (true, (w', record { count = written.count + sent.n; err = none }))
      ]

  module _ {V : Type 0} (floats : Floats V) where
    pub write_counter : RateMap V → String → List String → List V → Act (W × Written) Bool
    unfolding write_line counter_line
    write_counter rates name lvs values = write_line (counter_line floats rates name values)

    -- Walk passes no series without observations, on which last would panic.
    pub write_gauge : String → List String → List V → Act (W × Written) Bool
    unfolding write_line line last_after
    write_gauge name lvs [] st = (true, st)
    write_gauge name lvs (v ∷ values) st =
        write_line (line floats name (last_after floats v values) "|g") st

    pub write_timing : RateMap V → String → List String → List V → Act (W × Written) Bool
    unfolding write_line timing_line
    write_timing rates name lvs [] st = (true, st)
    write_timing rates name lvs (value ∷ values) st =
        let (go_on, st') = write_line (timing_line floats rates name value) st in
        let rest = write_timing rates name lvs values st' in if go_on then rest else (false, st')

    -- WriteTo: the writer and the results, and the spaces that are left.
    pub write_to : Statsd V → W → (W × Written) × Statsd V
    unfolding write_counter write_gauge write_timing Space.reset
    write_to s w =
        let (counters, counters') = Space.reset s.counters in
        let s₁ : Statsd V = record s { counters = counters' } in
        let st₁ = walk (write_counter s.rates) counters (w, record { count = 0; err = none }) in
        elim st₁.1.err [
          | some e ↦ (st₁, s₁)
          | none ↦
              let (gauges, gauges') = Space.reset s.gauges in
              let s₂ : Statsd V = record s₁ { gauges = gauges' } in
              let st₂ = walk write_gauge gauges st₁ in
              elim st₂.1.err [
                | some e ↦ (st₂, s₂)
                | none ↦
                    let (timings, timings') = Space.reset s.timings in
                    (walk (write_timing s.rates) timings st₂, record s₂ { timings = timings' })
              ]
        ]
