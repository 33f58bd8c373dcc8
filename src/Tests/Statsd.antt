-- ===== src/Tests/Statsd.antt =====
-- metrics/statsd on small inputs.
use kit_go.Prelude.{ℕ, ◌+◌, ◌≡◌, ◌⊎◌, String, false, List, [], ◌∷◌, ◌++◌, none, some}
use kit_go.Go.{Error, Act}
use kit_go.Metrics.Lv.Space as Space
use kit_go.Metrics.Lv.Space.{node, leaf}
use kit_go.Metrics.Statsd.{Floats, Statsd, write_to}
use kit_go.Metrics.Statsd.Lines.{lines, write_lines}
use kit_go.Metrics.Statsd.Lines.Complete.{write_to-lines}
use kit_go.Transport.Http.Writer.{Sent}

abbrev floats : Floats ℕ
floats = record { zero_value = 0; one = 1; add = ◌+◌; below_one = λ r. false; print = λ r. "1" }

-- The outside is the list of what was written.
abbrev fprintf : String → Act (List String) Sent
fprintf text w = (record { n = 4; err = none }, w ++ text ∷ [])

abbrev statsd : Statsd ℕ
statsd = record {
  prefix = "app.";
  rates = [];
  counters = record { nodes = ("app.hits", node (1 ∷ 2 ∷ []) leaf) ∷ [] };
  gauges = record { nodes = [] };
  timings = record { nodes = ("app.wait", node (7 ∷ 8 ∷ []) leaf) ∷ [] };
}

write_to-lines_example :
    ((write_to fprintf floats statsd []).0
      ≡ (write_lines fprintf (lines floats statsd) ([], record { count = 0; err = none })).1)
    × ((write_to fprintf floats statsd []).1.counters ≡ Space.new_space)
    × (((e : Error) × ((write_to fprintf floats statsd []).0.1.err ≡ some e))
        ⊎ (((write_to fprintf floats statsd []).1.gauges ≡ Space.new_space)
            × ((write_to fprintf floats statsd []).1.timings ≡ Space.new_space)))
write_to-lines_example = write_to-lines fprintf floats statsd []
