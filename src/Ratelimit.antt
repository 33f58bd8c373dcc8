-- ===== src/Ratelimit.antt =====
-- ratelimit/token_bucket.go: middlewares over a limiter, which is a parameter: the program takes
-- any Allower or Waiter.
use kit_go.Prelude.{
  ℕ, zero, suc, ◌+◌, ◌≡◌, refl, Bool, true, false, List, [], ◌∷◌, Option, none, some, arith, length,
  min, if◌then◌else◌,
}
use kit_go.Go.{Error, Act, errors_new}
use kit_go.Endpoint.{Endpoint, Middleware}

abbrev pub err_limited : Error
err_limited = errors_new "rate limit exceeded"

module _ {W Ctx Req Res : Type 0} (zero_value : Res) where
  pub erroring_limiter : Act W Bool → Middleware W Ctx Req Res
  erroring_limiter allow next ctx request w =
      let (allowed, w') = allow w in
      if allowed
      then next ctx request w'
      else (record { response = zero_value; err = some err_limited }, w')

  pub delaying_limiter : (Ctx → Act W (Option Error)) → Middleware W Ctx Req Res
  delaying_limiter wait next ctx request w =
      let (err, w') = wait ctx w in
      elim err [
        | some e ↦ (record { response = zero_value; err = some e }, w')
        | none ↦ next ctx request w'
      ]

-- A limiter of `n` tokens that are not refilled, over an endpoint that counts its calls.
pub record Bucket : Type 0 where
  pub tokens : ℕ
  pub called : ℕ

take_token : Act Bucket Bool
take_token b = elim b.tokens [ zero ↦ (false, b) | suc n ↦ (true, record b { tokens = n }) ]

module _ {Ctx Req Res : Type 0} (zero_value : Res)
    (handler : Ctx → Req → record { response : Res; err : Option Error }) where
  counted : Endpoint Bucket Ctx Req Res
  counted ctx request b = (handler ctx request, record b { called = b.called + 1 })

  -- Requests one after another through the limited endpoint.
  pub serve : List (Ctx × Req) → Act Bucket (List (record { response : Res; err : Option Error }))
  unfolding take_token counted
  serve [] b = ([], b)
  serve ((ctx, request) ∷ rest) b =
      let (reply, b') = erroring_limiter zero_value take_token counted ctx request b in
      let (replies, b'') = serve rest b' in (reply ∷ replies, b'')

  -- What `n` tokens buy: the handler's replies, and refusals with ErrLimited from then on.
  pub answers : ℕ → List (Ctx × Req) → List (record { response : Res; err : Option Error })
  answers n [] = []
  answers zero (r ∷ rest) =
      record { response = zero_value; err = some err_limited } ∷ answers zero rest
  answers (suc n) ((ctx, request) ∷ rest) = handler ctx request ∷ answers n rest

  -- With `n` tokens, the first `n` requests get the endpoint's replies and all the others are
  -- refused with ErrLimited, and the endpoint is called only for the former.
  pub serve-answers :
      (requests : List (Ctx × Req)) (n called : ℕ)
      → let r = serve requests (record { tokens = n; called = called }) in
        (r.0 ≡ answers n requests) × (r.1.called ≡ called + min n (length requests))
  unfolding serve answers erroring_limiter
  serve-answers [] n called = (refl, omega arith)
  serve-answers (r ∷ rest) zero called =
      let (p, q) = serve-answers rest zero called in (cc, omega arith)
  serve-answers (r ∷ rest) (suc n) called =
      let (p, q) = serve-answers rest n (called + 1) in (cc, omega arith)
