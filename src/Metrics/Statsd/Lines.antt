-- ===== src/Metrics/Statsd/Lines.antt =====
-- metrics/statsd/statsd.go: WriteTo writes a line for each counter and gauge and one for each
-- timing, as the walks with its functions do.
pub mod Complete
use mathlib.Core.List.{foldl}
use Prim.Native.String.{◌++◌ as str_append}
use kit_go.Prelude.{
  ◌+◌, String, Bool, true, false, ◌≡◌, refl, sym, ◌∙◌, ap, none, some, List, [], ◌∷◌, ◌++◌, map,
  arith, if◌then◌else◌,
}
use kit_go.Go.{Act}
use kit_go.Prelude.Assoc.{string_eq, lookup}
use kit_go.Metrics.Ratemap.{RateMap, get_rate}
use kit_go.Metrics.Lv.Space.Visited.{Visit, visits, visit_all}
use kit_go.Transport.Http.Writer.{Sent}
use kit_go.Metrics.Statsd.{
  Floats, Statsd, Written, sum_from, sum, sampling, last_after, line, counter_line, timing_line,
  write_line, write_counter, write_gauge, write_timing,
}

module _ {V : Type 0} (floats : Floats V) where
  -- A line as it is printed, with the kind of the metric.
  printed : String → V → String → String
  printed name value kind =
      str_append name (str_append ":" (str_append (floats.print value) (str_append kind "\n")))

  -- The rate of a metric without one is 1.
  rate_of : RateMap V → String → V
  rate_of rates name = elim (lookup name rates) [ none ↦ floats.one | some r ↦ r ]

  -- The kind with the rate, where it is below 1.
  rated : RateMap V → String → String → String
  unfolding rate_of
  rated rates name kind =
      let rate = rate_of rates name in
      str_append kind (if floats.below_one rate then str_append "|@" (floats.print rate) else "")

  counter_lines : RateMap V → List (Visit V) → List String
  unfolding printed rated
  counter_lines rates [] = []
  counter_lines rates (v ∷ vs) =
      printed v.name (foldl floats.add floats.zero_value v.values) (rated rates v.name "|c")
      ∷ counter_lines rates vs

  -- The last of the values.
  gauge_text : String → List V → List String
  unfolding printed
  gauge_text name [] = []
  gauge_text name (v ∷ values) = printed name (foldl (λ old new. new) v values) "|g" ∷ []

  gauge_lines : List (Visit V) → List String
  unfolding gauge_text
  gauge_lines [] = []
  gauge_lines (v ∷ vs) = gauge_text v.name v.values ++ gauge_lines vs

  timing_text : RateMap V → String → V → String
  unfolding printed rated
  timing_text rates name value = printed name value (rated rates name "|ms")

  timing_lines : RateMap V → List (Visit V) → List String
  unfolding timing_text
  timing_lines rates [] = []
  timing_lines rates (v ∷ vs) = map (timing_text rates v.name) v.values ++ timing_lines rates vs

  -- All that WriteTo has to write.
  pub lines : Statsd V → List String
  unfolding counter_lines gauge_lines timing_lines
  lines s =
      counter_lines s.rates (visits s.counters)
      ++ (gauge_lines (visits s.gauges) ++ timing_lines s.rates (visits s.timings))

  sum_from-foldl : (v : V) (values : List V) → sum_from floats v values ≡ foldl floats.add v values
  unfolding sum_from
  sum_from-foldl v [] = refl
  sum_from-foldl v (x ∷ values) = sum_from-foldl (floats.add v x) values

  last_after-foldl :
      (v : V) (values : List V) → last_after floats v values ≡ foldl (λ old new. new) v values
  unfolding last_after
  last_after-foldl v [] = refl
  last_after-foldl v (x ∷ values) = last_after-foldl x values

  get_rate-rated :
      (rates : RateMap V) (name kind : String)
      → str_append kind (sampling floats (get_rate floats.one name rates)) ≡ rated rates name kind
  unfolding get_rate sampling rated rate_of
  get_rate-rated rates name kind = refl

  counter_line-printed :
      (rates : RateMap V) (name : String) (values : List V)
      → counter_line floats rates name values
        ≡ printed name (foldl floats.add floats.zero_value values) (rated rates name "|c")
  unfolding counter_line sum line printed
  counter_line-printed rates name values =
      rw (get_rate-rated rates name "|c", sum_from-foldl floats.zero_value values) refl

  timing_line-printed :
      (rates : RateMap V) (name : String) (value : V)
      → timing_line floats rates name value ≡ timing_text rates name value
  unfolding timing_line line timing_text printed
  timing_line-printed rates name value = rw (get_rate-rated rates name "|ms") refl

module _ {W : Type 0} (fprintf : String → Act W Sent) where
  -- Lines, one after another, until a write fails: the bytes of the writes before it are counted.
  pub write_lines : List String → Act (W × Written) Bool
  write_lines [] st = (true, st)
  write_lines (l ∷ ls) (w, written) =
      let (sent, w') = fprintf l w in
      elim sent.err [
        | some e ↦ (false, (w', record { count = written.count; err = some e }))
        | none ↦ write_lines ls (w', record { count = written.count + sent.n; err = none })
      ]

  write_lines-write_line :
      (l : String) (ls : List String) (st : W × Written)
      → write_lines (l ∷ ls) st ≡ (
          let (go_on, st') = write_line fprintf l st in
          if go_on then write_lines ls st' else (false, st'))
  unfolding write_lines write_line
  write_lines-write_line l ls (w, written) = ground arith

  write_lines-append :
      (xs ys : List String) (st : W × Written)
      → write_lines (xs ++ ys) st ≡ (
          let (go_on, st') = write_lines xs st in
          if go_on then write_lines ys st' else (false, st'))
  unfolding write_lines
  write_lines-append [] ys st = refl
  write_lines-append (x ∷ xs) ys st =
      let (go_on, st') = write_line fprintf x st in
      rw
        (
          write_lines-write_line x (xs ++ ys) st,
          write_lines-write_line x xs st,
          write_lines-append xs ys st',
        )
        (ground arith)

  module _ {V : Type 0} (floats : Floats V) where
    visit_all-counter_lines :
        (rates : RateMap V) (vs : List (Visit V)) (st : W × Written)
        → visit_all (write_counter fprintf floats rates) vs st
          ≡ write_lines (counter_lines floats rates vs) st
    unfolding visit_all write_counter write_lines counter_lines
    visit_all-counter_lines rates [] st = refl
    visit_all-counter_lines rates (v ∷ vs) st =
        let text =
          printed floats v.name (foldl floats.add floats.zero_value v.values)
            (rated floats rates v.name "|c") in
        let (go_on, st') = write_line fprintf text st in
        rw
          (
            counter_line-printed floats rates v.name v.values,
            write_lines-write_line text (counter_lines floats rates vs) st,
            visit_all-counter_lines rates vs st',
          )
          refl

    write_gauge-gauge_text :
        (name : String) (lvs : List String) (values : List V) (st : W × Written)
        → write_gauge fprintf floats name lvs values st
          ≡ write_lines (gauge_text floats name values) st
    unfolding write_gauge write_lines gauge_text line printed
    write_gauge-gauge_text name lvs [] st = refl
    write_gauge-gauge_text name lvs (v ∷ values) st =
        let text = printed floats name (foldl (λ old new. new) v values) "|g" in
        rw (last_after-foldl floats v values, write_lines-write_line text [] st) (ground arith)

    visit_all-gauge_lines :
        (vs : List (Visit V)) (st : W × Written)
        → visit_all (write_gauge fprintf floats) vs st ≡ write_lines (gauge_lines floats vs) st
    unfolding visit_all gauge_lines write_lines
    visit_all-gauge_lines [] st = refl
    visit_all-gauge_lines (v ∷ vs) st =
        let (go_on, st') = write_gauge fprintf floats v.name v.lvs v.values st in
        rw
          (
            write_lines-append (gauge_text floats v.name v.values) (gauge_lines floats vs) st,
            ← write_gauge-gauge_text v.name v.lvs v.values st,
            visit_all-gauge_lines vs st',
          )
          refl

    write_timing-lines :
        (rates : RateMap V) (name : String) (lvs : List String) (values : List V) (st : W × Written)
        → write_timing fprintf floats rates name lvs values st
          ≡ write_lines (map (timing_text floats rates name) values) st
    unfolding write_timing write_lines
    write_timing-lines rates name lvs [] st = refl
    write_timing-lines rates name lvs (v ∷ values) st =
        let text = timing_text floats rates name v in
        let (go_on, st') = write_line fprintf text st in
        rw
          (
            timing_line-printed floats rates name v,
            write_lines-write_line text (map (timing_text floats rates name) values) st,
            write_timing-lines rates name lvs values st',
          )
          refl

    visit_all-timing_lines :
        (rates : RateMap V) (vs : List (Visit V)) (st : W × Written)
        → visit_all (write_timing fprintf floats rates) vs st
          ≡ write_lines (timing_lines floats rates vs) st
    unfolding visit_all timing_lines write_lines
    visit_all-timing_lines rates [] st = refl
    visit_all-timing_lines rates (v ∷ vs) st =
        let (go_on, st') = write_timing fprintf floats rates v.name v.lvs v.values st in
        rw
          (
            write_lines-append (map (timing_text floats rates v.name) v.values)
                (timing_lines floats rates vs) st,
            ← write_timing-lines rates v.name v.lvs v.values st,
            visit_all-timing_lines rates vs st',
          )
          refl
