-- ===== src/Metrics/Convert.antt =====
-- metrics/internal/convert/convert.go: a metric used as one of another kind. Methods that the kind
-- of a metric lacks do nothing.
use kit_go.Prelude.{◌≡◌, refl}
use kit_go.Metrics.Multi.{Metric}

module _ {W V L : Type 0} where
  nothing : L → V → W → W
  nothing l v w = w

  -- NewCounterAsHistogram and the methods of counterHistogram.
  pub counter_as_histogram : Metric W V L → Metric W V L
  unfolding nothing
  counter_as_histogram c = record {
    state = c.state;
    with_on = c.with_on;
    add_on = nothing;
    set_on = nothing;
    observe_on = c.add_on;
  }

  -- NewHistogramAsCounter and the methods of histogramCounter.
  pub histogram_as_counter : Metric W V L → Metric W V L
  unfolding nothing
  histogram_as_counter h = record {
    state = h.state;
    with_on = h.with_on;
    add_on = h.observe_on;
    set_on = nothing;
    observe_on = nothing;
  }

  -- NewCounterAsGauge and the methods of counterGauge.
  pub counter_as_gauge : Metric W V L → Metric W V L
  unfolding nothing
  counter_as_gauge c = record {
    state = c.state;
    with_on = c.with_on;
    add_on = c.add_on;
    set_on = c.add_on;
    observe_on = nothing;
  }

  -- NewGaugeAsCounter and the methods of gaugeCounter.
  pub gauge_as_counter : Metric W V L → Metric W V L
  unfolding nothing
  gauge_as_counter g = record {
    state = g.state;
    with_on = g.with_on;
    add_on = g.set_on;
    set_on = nothing;
    observe_on = nothing;
  }

  -- NewHistogramAsGauge and the methods of histogramGauge.
  pub histogram_as_gauge : Metric W V L → Metric W V L
  unfolding nothing
  histogram_as_gauge h = record {
    state = h.state;
    with_on = h.with_on;
    add_on = h.observe_on;
    set_on = h.observe_on;
    observe_on = nothing;
  }

  -- NewGaugeAsHistogram and the methods of gaugeHistogram.
  pub gauge_as_histogram : Metric W V L → Metric W V L
  unfolding nothing
  gauge_as_histogram g = record {
    state = g.state;
    with_on = g.with_on;
    add_on = nothing;
    set_on = nothing;
    observe_on = g.set_on;
  }

  -- A counter that was made a histogram or a gauge and then a counter again adds as before, and so
  -- does one that was made a histogram, then a gauge, and then a counter.
  pub counter_again :
      (c : Metric W V L) (l : L) (v : V) (w : W)
      → ((histogram_as_counter (counter_as_histogram c)).add_on l v w ≡ c.add_on l v w)
        × ((gauge_as_counter (counter_as_gauge c)).add_on l v w ≡ c.add_on l v w)
        × ((gauge_as_counter (histogram_as_gauge (counter_as_histogram c))).add_on l v w
            ≡ c.add_on l v w)
  unfolding counter_as_histogram histogram_as_counter counter_as_gauge gauge_as_counter
      histogram_as_gauge
  counter_again c l v w = (refl, refl, refl)
