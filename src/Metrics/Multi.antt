-- ===== src/Metrics/Multi.antt =====
-- metrics/multi/multi.go: several metrics as one. A metric is its state `L`, which With makes from
-- another one, and what its other methods do to the outside `W`. Floats are `V`.
use kit_go.Prelude.{String, List, [], ◌∷◌}

-- The methods that a metrics.Counter, Gauge or Histogram has of these.
pub record Metric (W V L : Type 0) : Type 0 where
  pub state : L
  pub with_on : List String → L → L
  pub add_on : L → V → W → W
  pub set_on : L → V → W → W
  pub observe_on : L → V → W → W

module _ {W V L : Type 0} where
  pub new_counter : List (Metric W V L) → List (Metric W V L)
  new_counter c = c

  -- Counter.Add
  pub counter_add : List (Metric W V L) → V → W → W
  counter_add [] delta w = w
  counter_add (c ∷ cs) delta w = counter_add cs delta (c.add_on c.state delta w)

  -- Counter.With
  pub counter_with : List String → List (Metric W V L) → List (Metric W V L)
  counter_with label_values [] = []
  counter_with label_values (c ∷ cs) =
      record c { state = c.with_on label_values c.state } ∷ counter_with label_values cs

  pub new_gauge : List (Metric W V L) → List (Metric W V L)
  new_gauge g = g

  -- Gauge.Set
  pub gauge_set : List (Metric W V L) → V → W → W
  gauge_set [] value w = w
  gauge_set (g ∷ gs) value w = gauge_set gs value (g.set_on g.state value w)

  -- Gauge.With
  pub gauge_with : List String → List (Metric W V L) → List (Metric W V L)
  gauge_with label_values [] = []
  gauge_with label_values (g ∷ gs) =
      record g { state = g.with_on label_values g.state } ∷ gauge_with label_values gs

  -- Gauge.Add
  pub gauge_add : List (Metric W V L) → V → W → W
  gauge_add [] delta w = w
  gauge_add (g ∷ gs) delta w = gauge_add gs delta (g.add_on g.state delta w)

  pub new_histogram : List (Metric W V L) → List (Metric W V L)
  new_histogram h = h

  -- Histogram.Observe
  pub histogram_observe : List (Metric W V L) → V → W → W
  histogram_observe [] value w = w
  histogram_observe (h ∷ hs) value w = histogram_observe hs value (h.observe_on h.state value w)

  -- Histogram.With
  pub histogram_with : List String → List (Metric W V L) → List (Metric W V L)
  histogram_with label_values [] = []
  histogram_with label_values (h ∷ hs) =
      record h { state = h.with_on label_values h.state } ∷ histogram_with label_values hs
