-- ===== src/Sd/Eureka.antt =====
-- sd/eureka/instancer.go and registrar.go. `print` prints an int with the verb %d. Stop is the
-- round `quits`.
pub mod Registrar
use Prim.Native.String.{◌++◌ as str_append}
use kit_go.Prelude.{ℕ, String, List, map, Option, none, some}
use kit_go.Go.{Error}
use kit_go.Sd.{Event}
use kit_go.Sd.Instancer.{Fetched, Instancer, Round, event_of, started, step}

-- The fields of fargo.Instance that are used.
pub record FargoInstance : Type 0 where
  pub ip_addr : String
  pub port : ℕ

-- fargo.AppUpdate, with the instances of its App.
pub record AppUpdate : Type 0 where
  pub app : List FargoInstance
  pub err : Option Error

module _ (print : ℕ → String) where
  pub convert_fargo_app_to_instances : List FargoInstance → List String
  convert_fargo_app_to_instances =
      map (λ inst. str_append inst.ip_addr (str_append ":" (print inst.port)))

  -- What `consume` publishes of an update, and what getInstances returns of an answer.
  pub consume : AppUpdate → Fetched
  unfolding convert_fargo_app_to_instances
  consume update = elim update.err [
    | some err ↦ record { instances = none; err = some err }
    | none ↦ record { instances = some (convert_fargo_app_to_instances update.app); err = none }
  ]

  -- NewInstancer, on the first update.
  pub new_instancer : AppUpdate → Instancer
  unfolding consume started event_of
  new_instancer update = started (event_of (consume update))

  -- A round of the loop, Register, Deregister or Stop.
  pub loop : Round AppUpdate → Instancer → Instancer
  unfolding consume step
  loop = step consume
