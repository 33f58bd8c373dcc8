-- ===== src/Circuitbreaker.antt =====
-- circuitbreaker/*.go: middlewares over three circuit breakers, none of which is part of the
-- repository: their methods are parameters.
pub mod Reports
use kit_go.Prelude.{
  ℕ, ◌-◌, ◌+◌, ◌≡◌, refl, Bool, true, false, List, [], ◌∷◌, ◌++◌, Option, none, some, arith,
  if◌then◌else◌, length, All,
}
use kit_go.Go.{Error, Act, errors_new}
use kit_go.Endpoint.{Endpoint, Middleware}

-- The methods of handy's breaker.Breaker, the clock and breaker.ErrCircuitOpen.
pub record Handy (W : Type 0) : Type 0 where
  pub allow : Act W Bool
  pub success : ℕ → Act W (Unit {0})
  pub failure : ℕ → Act W (Unit {0})
  pub now : Act W ℕ
  pub err_circuit_open : Error

module _ {W Ctx Req Res : Type 0} (zero_value : Res) where
  pub handy_breaker : Handy W → Middleware W Ctx Req Res
  handy_breaker cb next ctx request w =
      let (allowed, w₁) = cb.allow w in
      let (begin, w₂) = cb.now w₁ in
      let (reply, w₃) = next ctx request w₂ in
      let (finish, w₄) = cb.now w₃ in
      if allowed
      then elim reply.err [
        | none ↦ (reply, (cb.success (finish - begin) w₄).1)
        | some err ↦ (reply, (cb.failure (finish - begin) w₄).1)
      ]
      else (record { response = zero_value; err = some cb.err_circuit_open }, w₁)

  -- gobreaker's Execute runs the function or refuses to; what it returns with an error is dropped.
  pub gobreaker :
      (Act W (record { response : Res; err : Option Error })
        → Act W (record { response : Res; err : Option Error }))
      → Middleware W Ctx Req Res
  gobreaker execute next ctx request w =
      let (reply, w') = execute (next ctx request) w in
      elim reply.err [
        | some err ↦ (record { response = zero_value; err = some err }, w')
        | none ↦ (reply, w')
      ]

  -- hystrix.Do with a nil fallback returns an error; the response is what the closure assigned,
  -- kept in a cell beside the outside's state.
  pub hystrix :
      ((Act (W × Res) (Option Error)) → Act (W × Res) (Option Error)) → Middleware W Ctx Req Res
  hystrix do_command next ctx request w =
      let (err, s) = do_command (run_next (next ctx request)) (w, zero_value) in
      (record { response = s.1; err = err }, s.0)
    where
      run_next :
          Act W (record { response : Res; err : Option Error }) → Act (W × Res) (Option Error)
      run_next call s = let (reply, w') = call s.0 in (reply.err, (w', reply.response))
