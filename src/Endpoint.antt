-- ===== src/Endpoint.antt =====
-- endpoint/endpoint.go: endpoints, middlewares and their composition.
pub mod Chain
use kit_go.Prelude.{ℕ, zero, suc, List, get_elem?, length, Option, none, some}
use kit_go.Go.{Error, Act}

-- A Go function of this type returns a response and an error, whichever of the two is meant.
abbrev pub Endpoint {ℓ} : Type ℓ → Type ℓ → Type ℓ → Type ℓ → Type ℓ
Endpoint W Ctx Req Res = Ctx → Req → Act W (record { response : Res; err : Option Error })

abbrev pub Middleware {ℓ} : Type ℓ → Type ℓ → Type ℓ → Type ℓ → Type ℓ
Middleware W Ctx Req Res = Endpoint W Ctx Req Res → Endpoint W Ctx Req Res

-- The zero value of the response type is a parameter.
pub nop {ℓ} : {W Ctx Req Res : Type ℓ} → Res → Endpoint W Ctx Req Res
nop zero_value ctx request w = (record { response = zero_value; err = none }, w)

module _ {ℓ} {W Ctx Req Res : Type ℓ} where
  -- `i` rounds are left of `for i := len(others) - 1; i >= 0; i--`.
  wrap : List (Middleware W Ctx Req Res) → ℕ → Middleware W Ctx Req Res
  wrap others zero next = next
  wrap others (suc i) next = elim (get_elem? others i) [
    | some middleware ↦ wrap others i (middleware next)
    | none ↦ next
  ]

  pub chain : Middleware W Ctx Req Res → List (Middleware W Ctx Req Res) → Middleware W Ctx Req Res
  unfolding wrap
  chain outer others next = outer (wrap others (length others) next)
