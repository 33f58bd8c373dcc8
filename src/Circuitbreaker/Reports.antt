-- ===== src/Circuitbreaker/Reports.antt =====
-- What HandyBreaker tells its breaker.
use kit_go.Prelude.{
  ℕ, ◌-◌, ◌≡◌, Bool, true, false, List, [], ◌∷◌, ◌++◌, Option, none, some, arith, if◌then◌else◌,
  ◌∙◌,
}
use kit_go.Go.{Error}
use kit_go.Endpoint.{Endpoint}
use kit_go.Circuitbreaker.{Handy, handy_breaker}

-- A record of the reports to the breaker, `true` for a success, which the endpoint, the clock and
-- the question whether to go on do not touch.
pub record Reports {W Ctx Req Res : Type 0} (cb : Handy W) (next : Endpoint W Ctx Req Res)
    : Type 0 where
  pub seen : W → List Bool
  pub seen-allow : (w : W) → seen (cb.allow w).1 ≡ seen w
  pub seen-now : (w : W) → seen (cb.now w).1 ≡ seen w
  pub seen-next : (ctx : Ctx) (request : Req) (w : W) → seen (next ctx request w).1 ≡ seen w
  pub seen-success : (d : ℕ) (w : W) → seen (cb.success d w).1 ≡ seen w ++ true ∷ []
  pub seen-failure : (d : ℕ) (w : W) → seen (cb.failure d w).1 ≡ seen w ++ false ∷ []

abbrev pub is_nil : Option Error → Bool
is_nil none = true
is_nil (some e) = false

module _ {W Ctx Req Res : Type 0} (zero_value : Res) (cb : Handy W)
    (next : Endpoint W Ctx Req Res) where
  -- A request that the breaker allows is reported exactly once, as a success just if the endpoint
  -- returned no error, and its reply is the endpoint's; one that it does not allow is not
  -- reported, and its reply is ErrCircuitOpen.
  pub handy_reports :
      (r : Reports cb next) (ctx : Ctx) (request : Req) (w : W)
      → let answered = handy_breaker zero_value cb next ctx request w in
        let reply = (next ctx request (cb.now (cb.allow w).1).1).0 in
        let allowed = (cb.allow w).0 in
        (answered.0 ≡ (
          if allowed
          then reply
          else record { response = zero_value; err = some cb.err_circuit_open }))
        × (r.seen answered.1 ≡ (if allowed then r.seen w ++ is_nil reply.err ∷ [] else r.seen w))
  unfolding handy_breaker
  handy_reports r ctx request w =
      let w₁ = (cb.allow w).1 in
      let w₂ = (cb.now w₁).1 in
      let w₃ = (next ctx request w₂).1 in
      let w₄ = (cb.now w₃).1 in
      let d = (cb.now w₃).0 - (cb.now w₁).0 in
      let same : r.seen w₄ ≡ r.seen w =
        r.seen-now w₃ ∙ r.seen-next ctx request w₂ ∙ r.seen-now w₁ ∙ r.seen-allow w in
      (ground arith, ground (arith, r.seen-allow w, same, r.seen-success d w₄, r.seen-failure d w₄))
