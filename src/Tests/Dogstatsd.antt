-- ===== src/Tests/Dogstatsd.antt =====
-- metrics/dogstatsd on small inputs.
use kit_go.Prelude.{ℕ, zero, suc, ◌+◌, ◌≡◌, refl, String, true, false, [], ◌∷◌, none, some}
use kit_go.Go.{Act, Error, errors_new}
use kit_go.Metrics.Lv.Space as Space
use kit_go.Metrics.Lv.Space.{node, leaf}
use kit_go.Metrics.Lv.Space.Walk.{walk, walk_nodes}
use kit_go.Metrics.Lv.Space.Visited.{here, node_visits, nodes_visits, visits}
use kit_go.Metrics.Statsd.{Floats}
use kit_go.Metrics.Dogstatsd.{Dogstatsd, write_timings, write_to}
use kit_go.Metrics.Dogstatsd.Gauges.{gauge_node, no_gauges}
use kit_go.Metrics.Dogstatsd.Overwritten.{
  cleared, counters_written, gauges_written, write_to_forgets,
}
use kit_go.Transport.Http.Writer.{Sent}

abbrev floats : Floats ℕ
floats = record { zero_value = 0; one = 1; add = ◌+◌; below_one = λ r. false; print = λ r. "1" }

abbrev broken_pipe : Error
broken_pipe = errors_new "broken pipe"

-- The outside is the number of writes that will fail.
abbrev fprintf : String → Act ℕ Sent
fprintf text zero = (record { n = 4; err = none }, 0)
fprintf text (suc n) = (record { n = 0; err = some broken_pipe }, n)

abbrev dogstatsd : Dogstatsd ℕ
dogstatsd = record {
  prefix = "app.";
  rates = [];
  counters = record { nodes = [] };
  gauges =
      (
        "load",
        gauge_node (some (record { name = "load"; lvs = []; value = 3; set = true })) no_gauges,
      )
      ∷ [];
  timings = record { nodes = ("wait", node (7 ∷ 8 ∷ []) leaf) ∷ [] };
  histograms = record { nodes = [] };
  lvs = "env" ∷ "test" ∷ [];
}

write_to_forgets_example :
    write_to fprintf floats dogstatsd 1
    ≡ write_timings fprintf floats dogstatsd
        (record dogstatsd {
          counters = Space.new_space;
          gauges = (gauges_written fprintf floats dogstatsd 1).0;
        })
        (cleared fprintf floats dogstatsd (gauges_written fprintf floats dogstatsd 1).1)
unfolding counters_written walk walk_nodes visits nodes_visits node_visits here
write_to_forgets_example =
    write_to_forgets fprintf floats dogstatsd 1
      (record { name = "wait"; lvs = []; values = 7 ∷ 8 ∷ [] }) [] 7 (8 ∷ []) refl refl refl
