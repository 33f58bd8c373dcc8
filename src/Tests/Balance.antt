-- ===== src/Tests/Balance.antt =====
-- sd/lb on small inputs.
use kit_go.Prelude.{
  ℕ, zero, suc, ◌+◌, ◌*◌, ◌-◌, ◌≡◌, ◌≢◌, inr, refl, List, [], ◌∷◌, ◌++◌, none, some, arith, length,
  ltb, if◌then◌else◌,
}
use kit_go.Prelude.Tally.{tally}
use kit_go.Go.{Error, Act, errors_new}
use kit_go.Endpoint.{Endpoint}
use kit_go.Sd.Lb.{Answer}
use kit_go.Sd.Lb.RoundRobin as RoundRobin
use kit_go.Sd.Lb.RoundRobin.{RoundRobin, new_round_robin}
use kit_go.Sd.Lb.RoundRobin.Fair.{choice_weight, calls_fair}
use kit_go.Sd.Lb.Retry.{
  RetryError, Balanced, balanced, refused, exhausted, response, waiting, responses, attempt, rounds,
  max_retries, replaced, retry_with_callback, retry,
}
use kit_go.Sd.Lb.Retry.Bounded.{
  retry_returns, Fails, retry_exhausted, settled_rounds, after, AllFail, retry_succeeds,
}

abbrev two_endpoints : Answer ℕ
two_endpoints = record { endpoints = 10 ∷ 20 ∷ []; err = none }

-- Counts the choices of the second endpoint.
abbrev second_only : ℕ → ℕ
second_only e = e - 19

calls_fair_example :
    tally (choice_weight second_only) (RoundRobin.calls (3 * 2) two_endpoints (record { c = 5 })).0
    ≡ 3 * tally second_only (10 ∷ 20 ∷ [])
calls_fair_example =
    calls_fair second_only two_endpoints (refl, omega arith) 3 (record { c = 5 }) (omega arith)

abbrev busy : Error
busy = errors_new "busy"

abbrev answering : Endpoint ℕ ℕ ℕ ℕ
answering ctx request w = (record { response = request + 1; err = none }, w)

-- A balancer that refuses as long as its count lasts.
abbrev balancer : Act ℕ (Balanced (Endpoint ℕ ℕ ℕ ℕ))
balancer zero = (balanced answering, zero)
balancer (suc n) = (refused busy, n)

abbrev two_errors : RetryError
two_errors = record { raw_errors = busy ∷ busy ∷ []; final = busy }

gave_up : (retry balancer 2 0 4 (settled_rounds 2) 5).0 ≡ exhausted two_errors
unfolding retry retry_with_callback rounds attempt max_retries replaced
gave_up = refl

gave_up_with_callback :
    (retry_with_callback balancer (some (max_retries 2)) 0 4 (settled_rounds 2) 5).0
    ≡ exhausted two_errors
unfolding retry_with_callback rounds attempt max_retries replaced
gave_up_with_callback = refl

retry_returns_example : (retry balancer 2 0 4 (settled_rounds 2) 5).0 ≢ waiting
retry_returns_example =
    retry_returns balancer 2 0 4 (settled_rounds 2) 5 (omega arith) (omega arith)

retry_exhausted_example :
    Fails balancer 0 4 (busy ∷ busy ∷ []) 5 (retry balancer 2 0 4 (settled_rounds 2) 5).1
    × (length (busy ∷ busy ∷ []) ≡ (if ltb 1 2 then 2 else 1))
    × ((before : List Error) × (busy ∷ busy ∷ [] ≡ before ++ busy ∷ []))
retry_exhausted_example = retry_exhausted balancer 2 0 4 (settled_rounds 2) 5 two_errors gave_up

fails_once : AllFail balancer 0 4 1 1
unfolding attempt
fails_once = ((busy, refl), tt)

then_answers : attempt balancer 0 4 (after balancer 0 4 1 1) ≡ (responses 5, 0)
unfolding attempt after
then_answers = refl

retry_succeeds_example : retry balancer 2 0 4 (settled_rounds 2) 1 ≡ (response 5, 0)
retry_succeeds_example =
    retry_succeeds balancer 2 0 4 1 1 0 5 (inr (omega arith)) fails_once then_answers
