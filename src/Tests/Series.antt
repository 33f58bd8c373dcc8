-- ===== src/Tests/Series.antt =====
-- metrics/generic and metrics/internal/lv on small inputs.
use kit_go.Prelude.{
  ℕ, ◌+◌, ◌≡◌, ◌==◌, ==_iff, refl, sym, ◌∙◌, ◌*◌, String, List, [], ◌∷◌, ◌++◌, some, arith, length,
  if◌then◌else◌,
}
use kit_go.Prelude.Tally.{tally}
use kit_go.Prelude.Assoc.{string_eq, lookup, put}
use kit_go.Metrics.Lv.{with_values}
use kit_go.Metrics.Lv.Alias.{
  Slice, Heap, contents, with_slice, padded, array_at, Fits, with_overwrites,
}
use kit_go.Metrics.Lv.Space.{
  Space, new_space, observe, add, next_value, observe_node, add_node, update_at, insert_at,
  node_for, set_child, child_or_new, child_at, pair_eq, node, child, leaf,
}
use kit_go.Metrics.Lv.Space.Series.{time_series, same_series, time_series-observe}
use kit_go.Metrics.Generic.{adds, resets, Thread, ready}
use kit_go.Metrics.Generic.Interleaving.{run, apply_all}
use kit_go.Metrics.Generic.Interleaving.Linear.{initial, all_pending, run_linearizable}

abbrev three_threads : List (Thread ℕ)
three_threads = ready (adds 3) ∷ ready (adds 4) ∷ ready resets ∷ []

-- The first two load the same bits, so that one swap fails.
abbrev racing : List ℕ
racing = 0 ∷ 1 ∷ 0 ∷ 1 ∷ 2 ∷ 1 ∷ 2 ∷ 1 ∷ []

run_linearizable_example :
    let s =
      run
        (λ a b. a == b)
        (λ a b. a + b)
        0
        racing
        (initial (λ a b. a == b) (λ a b. a + b) 0 5 three_threads) in
    (s.bits ≡ apply_all (λ a b. a + b) 0 s.effects 5)
    × (tally (λ op. 1) s.effects
          + tally (λ op. 1) (all_pending (λ a b. a == b) (λ a b. a + b) 0 s.threads)
        ≡ tally (λ op. 1) (all_pending (λ a b. a == b) (λ a b. a + b) 0 three_threads))
run_linearizable_example =
    run_linearizable (λ a b. a == b) (λ a b. a + b) 0 ==_iff (λ op. 1) three_threads 5 racing

abbrev code : String → List String
code value = "code" ∷ value ∷ []

-- One series, of a name and a pair.
abbrev hits : String → List ℕ → Space ℕ
hits value observations = record {
  nodes =
      (
        "hits",
        node [] (child (record { label = "code"; value = value }) (node observations leaf) leaf),
      )
      ∷ [];
}

observed : observe "hits" (code "200") 7 (hits "200" (1 ∷ [])) ≡ some (hits "200" (1 ∷ 7 ∷ []))
unfolding observe observe_node add add_node next_value update_at insert_at node_for set_child
    child_or_new child_at pair_eq new_space lookup put
observed = refl

time_series-observe_example : time_series "hits" (code "200") (hits "200" (1 ∷ 7 ∷ [])) ≡ (
    if same_series "hits" (code "200") "hits" (code "200")
    then time_series "hits" (code "200") (hits "200" (1 ∷ [])) ++ 7 ∷ []
    else time_series "hits" (code "200") (hits "200" (1 ∷ [])))
time_series-observe_example =
    time_series-observe "hits" "hits" (code "200") (code "200") 7 (hits "200" (1 ∷ []))
      (hits "200" (1 ∷ 7 ∷ [])) observed

added :
    add (λ a b. a + b) "hits" (code "200") 7 (hits "200" (1 ∷ [])) ≡ some (hits "200" (1 ∷ 8 ∷ []))
unfolding observe observe_node add add_node next_value update_at insert_at node_for set_child
    child_or_new child_at pair_eq new_space lookup put
added = refl

abbrev odd_values : List String
odd_values = "code" ∷ []

-- An array of four cells, half of which are in use.
abbrev roomy : Heap
roomy = ("code" ∷ "200" ∷ "" ∷ "" ∷ []) ∷ []

abbrev two_of : ℕ → Slice
two_of cap = record { array = 0; len = 2; cap = cap }

roomy-Fits : Fits roomy (two_of 4)
unfolding array_at
roomy-Fits = record { in_heap = omega arith; in_array = omega arith; sized = refl }

length_of_padded : (value : String) → length (padded (code value)) ≡ 2
unfolding padded
length_of_padded value = refl

with_overwrites_example :
    let a = with_slice (λ n. n * 2) roomy (two_of 4) (code "a") in
    let b = with_slice (λ n. n * 2) a.0 (two_of 4) (code "b") in
    contents b.0 a.1 ≡ with_values (contents roomy (two_of 4)) (code "b")
with_overwrites_example =
    with_overwrites (λ n. n * 2) roomy (two_of 4) (code "a") (code "b") roomy-Fits
      (omega (arith, length_of_padded "a")) (length_of_padded "a" ∙ sym (length_of_padded "b"))
