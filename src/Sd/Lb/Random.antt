-- ===== src/Sd/Lb/Random.antt =====
-- sd/lb/random.go: an endpoint by a random index. math/rand is not part of the repository: `R` is
-- the state of its generator and `intn` its Intn, which panics unless its argument is positive.
use mathlib.Core.List.{Memᴰ}
use kit_go.Prelude.{
  ℕ, ◌<◌, ◌≡◌, none, some, length, get_elem?, get_elem?-lt, arith, leb, if◌then◌else◌,
}
use kit_go.Go.{Act}
use kit_go.Sd.Lb.{Answer, Choice, err_no_endpoints}
use kit_go.Sd.Lb.RoundRobin.Fair.{HasEndpoints, mem-get_elem?}

module _ {R E : Type 0} (intn : ℕ → Act R ℕ) where
  pub endpoint : Answer E → Act R (Choice E)
  endpoint answer r = elim answer.err [
    | some err ↦ (record { endpoint = none; err = some err }, r)
    | none ↦
        if leb (length answer.endpoints) 0
        then (record { endpoint = none; err = some err_no_endpoints }, r)
        else (let (i, r') = intn (length answer.endpoints) r in
            (record { endpoint = get_elem? answer.endpoints i; err = none }, r'))
  ]

  -- If Intn returns numbers below its positive argument, a call returns one of the endpoints with
  -- no error, and draws exactly one number.
  pub random_endpoint_in_range :
      (answer : Answer E) (r : R)
      → ((n : ℕ) (s : R) → 0 < n → (intn n s).0 < n)
      → HasEndpoints answer
      → (e : E) × Memᴰ e answer.endpoints
        × (endpoint answer r
            ≡ (record { endpoint = some e; err = none }, (intn (length answer.endpoints) r).1))
  unfolding endpoint
  random_endpoint_in_range answer r below ok =
      let i = (intn (length answer.endpoints) r).0 in
      let (e, p) = get_elem?-lt answer.endpoints i (below _ r ok.1) in
      (e, mem-get_elem? answer.endpoints i e p, ground (arith, ok.0, ok.1, p))
