-- ===== src/Metrics/Dogstatsd/Overwritten.antt =====
-- metrics/dogstatsd/dogstatsd.go: WriteTo does not look at the error of a gauge, which the next write
-- takes the place of.
use kit_go.Prelude.{String, ◌≡◌, refl, ap, ◌∙◌, List, ◌∷◌, none}
use kit_go.Go.{Act}
use kit_go.Metrics.Lv.Space as Space
use kit_go.Metrics.Lv.Space.Walk.{walk}
use kit_go.Metrics.Lv.Space.Visited.{Visit, visits, visit_all, walk-visits}
use kit_go.Metrics.Statsd.{Floats, Written, write_line}
use kit_go.Metrics.Dogstatsd.{
  Dogstatsd, write_histograms, write_counter, write_gauge, write_values, write_timings, write_to,
}
use kit_go.Metrics.Dogstatsd.Gauges.{GaugeNode, walk_roots}
use kit_go.Transport.Http.Writer.{Sent}

module _ {W V : Type 0} (fprintf : String → Act W Sent) (floats : Floats V) (d : Dogstatsd V) where
  -- The results with the error cleared.
  pub cleared : W × Written → W × Written
  cleared (w, written) = (w, record written { err = none })

  write_line-cleared :
      (l : String) (st : W × Written) → write_line fprintf l st ≡ write_line fprintf l (cleared st)
  unfolding write_line cleared
  write_line-cleared l (w, written) = refl

  write_values-cleared :
      (kind name : String) (lvs : List String) (v : V) (vs : List V) (st : W × Written)
      → write_values fprintf floats d kind name lvs (v ∷ vs) st
        ≡ write_values fprintf floats d kind name lvs (v ∷ vs) (cleared st)
  unfolding write_values write_line cleared
  write_values-cleared kind name lvs v vs (w, written) = refl

  visit_all-cleared :
      (kind : String) (v : Visit V) (vs : List (Visit V)) (x : V) (xs : List V)
      → v.values ≡ x ∷ xs
      → (st : W × Written)
      → visit_all (write_values fprintf floats d kind) (v ∷ vs) st
        ≡ visit_all (write_values fprintf floats d kind) (v ∷ vs) (cleared st)
  unfolding visit_all
  visit_all-cleared kind v vs x xs q st =
      let first : write_values fprintf floats d kind v.name v.lvs v.values st
          ≡ write_values fprintf floats d kind v.name v.lvs v.values (cleared st) =
        rw q (write_values-cleared kind v.name v.lvs x xs st) in
      rw first refl

  walk-cleared :
      (kind : String) (s : Space.Space V) (v : Visit V) (vs : List (Visit V)) (x : V) (xs : List V)
      → visits s ≡ v ∷ vs
      → v.values ≡ x ∷ xs
      → (st : W × Written)
      → walk (write_values fprintf floats d kind) s st
        ≡ walk (write_values fprintf floats d kind) s (cleared st)
  walk-cleared kind s v vs x xs p q st =
      rw
        (
          walk-visits (write_values fprintf floats d kind) s st,
          walk-visits (write_values fprintf floats d kind) s (cleared st),
          p,
          visit_all-cleared kind v vs x xs q st,
        )
        refl

  -- The counters and the gauges as they are written, and the gauges that are left.
  unfoldable pub counters_written : W → W × Written
  counters_written w =
      walk (write_counter fprintf floats d) d.counters (w, record { count = 0; err = none })

  pub gauges_written : W → List (String × GaugeNode V) × (W × Written)
  unfolding counters_written
  gauges_written w = walk_roots (write_gauge fprintf floats d) d.gauges (counters_written w)

  gauges_passed :
      (w : W)
      → (counters_written w).1.err ≡ none
      → write_to fprintf floats d w
        ≡ write_timings fprintf floats d
            (record d { counters = Space.new_space; gauges = (gauges_written w).0 })
            (gauges_written w).1
  unfolding write_to counters_written gauges_written
  gauges_passed w ok = simp (ok, write_to)

  write_timings-cleared :
      (d₂ : Dogstatsd V) (v : Visit V) (vs : List (Visit V)) (x : V) (xs : List V)
      → visits d₂.timings ≡ v ∷ vs
      → v.values ≡ x ∷ xs
      → (st : W × Written)
      → write_timings fprintf floats d d₂ st ≡ write_timings fprintf floats d d₂ (cleared st)
  unfolding write_timings
  write_timings-cleared d₂ v vs x xs p q st =
      ap (write_histograms fprintf floats d (record d₂ { timings = Space.new_space }))
        (walk-cleared "|ms" d₂.timings v vs x xs p q st)

  -- If the counters are written without an error, and the first timing has a value, then WriteTo goes
  -- on after the gauges as though no write of a gauge had failed: it writes, returns and leaves the
  -- same as with their error cleared.
  pub write_to_forgets :
      (w : W) (v : Visit V) (vs : List (Visit V)) (x : V) (xs : List V)
      → (counters_written w).1.err ≡ none
      → visits d.timings ≡ v ∷ vs
      → v.values ≡ x ∷ xs
      → write_to fprintf floats d w
        ≡ write_timings fprintf floats d
            (record d { counters = Space.new_space; gauges = (gauges_written w).0 })
            (cleared (gauges_written w).1)
  write_to_forgets w v vs x xs ok p q =
      gauges_passed w ok
      ∙ write_timings-cleared
          (record d { counters = Space.new_space; gauges = (gauges_written w).0 }) v vs x xs p q
          (gauges_written w).1
