-- ===== src/Metrics/Dogstatsd.antt =====
-- metrics/dogstatsd/dogstatsd.go. `V` stands for float64. The writer is in the outside `W`.
-- WriteLoop, SendLoop and logging are left out.
pub mod Gauges
pub mod Overwritten
use Prim.Native.String.{◌++◌ as str_append}
use kit_go.Prelude.{
  ℕ, ◌+◌, String, Bool, true, false, ◌&&◌, List, [], ◌∷◌, ◌++◌, map, Option, none, some, is_empty,
  if◌then◌else◌,
}
use kit_go.Prelude.Assoc.{string_eq, lookup, put}
use kit_go.Go.{Error, Act}
use kit_go.Metrics.Ratemap.{RateMap, new_rate_map, set_rate, get_rate}
use kit_go.Metrics.Lv.{with_values}
use kit_go.Metrics.Lv.Space as Space
use kit_go.Metrics.Lv.Space.Walk.{walk}
use kit_go.Metrics.Statsd.{Floats, Written, sum, sampling, write_line}
use kit_go.Metrics.Dogstatsd.Gauges.{Gauge, GaugeNode, gauge_node, no_gauges, add_gauge, walk_roots}
use kit_go.Transport.Http.Writer.{Sent}
use mathlib.Core.Option

pub record Dogstatsd (V : Type 0) : Type 0 where
  pub prefix : String
  pub rates : RateMap V
  pub counters : Space.Space V
  pub gauges : List (String × GaugeNode V)
  pub timings : Space.Space V
  pub histograms : Space.Space V
  pub lvs : List String

-- Counter, Timing and Histogram, with the rate that obs samples with.
pub record Metric (V : Type 0) : Type 0 where
  pub name : String
  pub lvs : List String
  pub sample_rate : V

-- The tests sampleRate >= 1 and a > b.
pub record Sampling (V : Type 0) : Type 0 where
  pub at_least_one : V → Bool
  pub above : V → V → Bool

is_even : {A : Type 0} → List A → Bool
is_even [] = true
is_even (x ∷ []) = false
is_even (x ∷ y ∷ xs) = is_even xs

module _ {V : Type 0} where
  -- New; a panic is `none`.
  pub new_dogstatsd : String → List String → Option (Dogstatsd V)
  unfolding is_even
  new_dogstatsd prefix lvs =
      if is_even lvs
      then some (record {
        prefix = prefix;
        rates = new_rate_map;
        counters = Space.new_space;
        gauges = [];
        timings = Space.new_space;
        histograms = Space.new_space;
        lvs = lvs;
      })
      else none

  -- NewCounter, NewTiming and NewHistogram.
  pub new_metric : String → V → Dogstatsd V → Metric V × Dogstatsd V
  new_metric name sample_rate d = (
    record { name = name; lvs = []; sample_rate = sample_rate },
    record d { rates = set_rate name sample_rate d.rates },
  )

  -- NewGauge
  pub new_gauge : V → String → Dogstatsd V → Dogstatsd V
  new_gauge zero_value name d = elim (lookup name d.gauges) [
    | some n ↦ d
    | none ↦
        let g : Gauge V = record { name = name; lvs = []; value = zero_value; set = false } in
        record d { gauges = put name (gauge_node (some g) no_gauges) d.gauges }
  ]

  -- Gauge.With, on a gauge with these label values; the new gauge is the one at its own place.
  pub gauge_with :
      V → String → List String → List String → Dogstatsd V → Option (List String × Dogstatsd V)
  gauge_with zero_value name lvs label_values d =
      let lvs' = with_values lvs label_values in
      let g : Gauge V = record { name = name; lvs = lvs'; value = zero_value; set = false } in
      elim (lookup name d.gauges) [
        | none ↦ none
        | some root ↦
            Option.map (λ n. (lvs', record d { gauges = put name n d.gauges }))
              (add_gauge g lvs' root)
      ]

  -- With of the other metrics.
  pub metric_with : List String → Metric V → Metric V
  metric_with label_values m = record m { lvs = with_values m.lvs label_values }

  -- sampleObservations, with what rand.Float64 would return.
  pub sample_observations :
      Sampling V
      → V
      → V
      → (Space.Space V → Option (Space.Space V))
      → Space.Space V
      → Option (Space.Space V)
  sample_observations sampling random sample_rate obs space =
      if sampling.at_least_one sample_rate
      then obs space
      else if sampling.above random sample_rate
      then some space
      else obs space

  -- Counter.Add
  pub counter_add : Sampling V → V → Metric V → V → Dogstatsd V → Option (Dogstatsd V)
  unfolding sample_observations
  counter_add sampling random c delta d =
      Option.map (λ space. record d { counters = space })
        (sample_observations sampling random c.sample_rate (Space.observe c.name c.lvs delta)
          d.counters)

  -- Timing.Observe
  pub timing_observe : Sampling V → V → Metric V → V → Dogstatsd V → Option (Dogstatsd V)
  unfolding sample_observations
  timing_observe sampling random t value d =
      Option.map (λ space. record d { timings = space })
        (sample_observations sampling random t.sample_rate (Space.observe t.name t.lvs value)
          d.timings)

  -- Histogram.Observe
  pub histogram_observe : Sampling V → V → Metric V → V → Dogstatsd V → Option (Dogstatsd V)
  unfolding sample_observations
  histogram_observe sampling random h value d =
      Option.map (λ space. record d { histograms = space })
        (sample_observations sampling random h.sample_rate (Space.observe h.name h.lvs value)
          d.histograms)

-- The loops of tagValues. Label values come in pairs, by New and With.
pairs : List String → List String
pairs [] = []
pairs (label ∷ []) = []
pairs (label ∷ value ∷ rest) = str_append label (str_append ":" value) ∷ pairs rest

-- strings.Join with a comma.
join : List String → String
join [] = ""
join (s ∷ []) = s
join (s ∷ t ∷ rest) = str_append s (str_append "," (join (t ∷ rest)))

pub tag_values : List String → List String → String
unfolding pairs join
tag_values own label_values =
    if is_empty label_values && is_empty own
    then ""
    else str_append "|#" (join (pairs own ++ pairs label_values))

module _ {V : Type 0} (floats : Floats V) (d : Dogstatsd V) where
  -- A line: the prefix, the name, the value, the kind with the sampling, and the tags.
  pub line : String → List String → V → String → String
  unfolding tag_values
  line name lvs value kind = str_append d.prefix (
      str_append name (
        str_append ":" (
          str_append (floats.print value)
            (str_append kind (str_append (tag_values d.lvs lvs) "\n")))))

  sampled : String → String → String
  sampled kind name = str_append kind (sampling floats (get_rate floats.one name d.rates))

module _ {W V : Type 0} (fprintf : String → Act W Sent) (floats : Floats V) (d : Dogstatsd V) where
  pub write_counter : String → List String → List V → Act (W × Written) Bool
  unfolding line sampled
  write_counter name lvs values =
      write_line fprintf (line floats d name lvs (sum floats values) (sampled floats d "|c" name))

  pub write_gauge : String → List String → V → Act (W × Written) Bool
  unfolding line
  write_gauge name lvs value = write_line fprintf (line floats d name lvs value "|g")

  -- The loop over the values of a timing, with "|ms", or of a histogram, with "|h".
  pub write_values : String → String → List String → List V → Act (W × Written) Bool
  unfolding line sampled
  write_values kind name lvs [] st = (true, st)
  write_values kind name lvs (value ∷ values) st =
      let (go_on, st') =
        write_line fprintf (line floats d name lvs value (sampled floats d kind name)) st in
      let rest = write_values kind name lvs values st' in if go_on then rest else (false, st')

  -- WriteTo after the timings.
  write_histograms : Dogstatsd V → W × Written → (W × Written) × Dogstatsd V
  unfolding write_values
  write_histograms d₃ st = elim st.1.err [
    | some e ↦ (st, d₃)
    | none ↦ (walk (write_values "|h") d₃.histograms st, record d₃ { histograms = Space.new_space })
  ]

  -- WriteTo after the gauges.
  pub write_timings : Dogstatsd V → W × Written → (W × Written) × Dogstatsd V
  unfolding write_histograms
  write_timings d₂ st =
      write_histograms (record d₂ { timings = Space.new_space })
        (walk (write_values "|ms") d₂.timings st)

  -- WriteTo: the writer and the results, and what is left.
  pub write_to : W → (W × Written) × Dogstatsd V
  unfolding write_counter write_gauge write_timings
  write_to w =
      let d₁ : Dogstatsd V = record d { counters = Space.new_space } in
      let st = walk write_counter d.counters (w, record { count = 0; err = none }) in
      elim st.1.err [
        | some e ↦ (st, d₁)
        | none ↦
            let (gauges, st') = walk_roots write_gauge d.gauges st in
            write_timings (record d₁ { gauges = gauges }) st'
      ]
