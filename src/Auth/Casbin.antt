-- ===== src/Auth/Casbin.antt =====
-- auth/casbin/middleware.go. Of other packages, `Library` has what package context holds for the two
-- keys and does with the third, NewEnforcer, and Enforce on the subject, the object and the action.
use kit_go.Prelude.{String, Bool, not, Option, none, some, if◌then◌else◌}
use kit_go.Go.{Error, Act, errors_new}
use kit_go.Endpoint.{Middleware}

-- A result and an error.
pub record Result (A : Type 0) : Type 0 where
  pub value : A
  pub err : Option Error

-- `O` is the type of objects, `M` and `P` those of models and policies, `E` that of enforcers.
pub record Library (W Ctx O M P E : Type 0) : Type 0 where
  pub model : Ctx → M
  pub policy : Ctx → P
  pub with_enforcer : E → Ctx → Ctx
  pub new_enforcer : M → P → Act W (Result E)
  pub enforce : E → String → O → String → Act W (Result Bool)

abbrev pub err_unauthorized : Error
err_unauthorized = errors_new "Unauthorized Access"

module _ {W Ctx Req Res O M P E : Type 0} (lib : Library W Ctx O M P E) (zero_value : Res) where
  -- NewEnforcer
  pub new_enforcer : String → O → String → Middleware W Ctx Req Res
  new_enforcer subject object action next ctx request w =
      let (enforcer, w₁) = lib.new_enforcer (lib.model ctx) (lib.policy ctx) w in
      elim enforcer.err [
        | some err ↦ (record { response = zero_value; err = some err }, w₁)
        | none ↦
            let ctx' = lib.with_enforcer enforcer.value ctx in
            let (ok, w₂) = lib.enforce enforcer.value subject object action w₁ in
            elim ok.err [
              | some err ↦ (record { response = zero_value; err = some err }, w₂)
              | none ↦
                  if not ok.value
                  then (record { response = zero_value; err = some err_unauthorized }, w₂)
                  else next ctx' request w₂
            ]
      ]
