-- ===== src/Sd/Dnssrv.antt =====
-- sd/dnssrv/instancer.go. `join` is net.JoinHostPort on a target and a printed port. Stop is the
-- round `quits`.
pub mod Ports
use kit_go.Prelude.{ℕ, String, ◌==◌, List, [], ◌∷◌, Option, none, some, if◌then◌else◌}
use kit_go.Go.{Error, errors_new}
use kit_go.Sd.{Event}
use kit_go.Sd.Instancer.{Fetched, Instancer, Round, started, step}

-- The fields of net.SRV that are used.
pub record Srv : Type 0 where
  pub target : String
  pub port : ℕ

-- What a Lookup returns beside the name.
pub record Lookup : Type 0 where
  pub addrs : List Srv
  pub err : Option Error

abbrev pub err_port_zero : Error
err_port_zero = errors_new "resolver returned SRV record with port 0"

module _ (join : String → ℕ → String) where
  -- The loop over the addresses, which leaves at a port 0.
  join_all : List Srv → Option (List String)
  join_all [] = some []
  join_all (addr ∷ addrs) =
      let rest = join_all addrs in
      if addr.port == 0 then none else (elim rest [
        | none ↦ none
        | some instances ↦ some (join addr.target addr.port ∷ instances)
      ])

  pub resolve : Lookup → Fetched
  unfolding join_all
  resolve lookup = elim lookup.err [
    | some err ↦ record { instances = none; err = some err }
    | none ↦ elim (join_all lookup.addrs) [
      | none ↦ record { instances = none; err = some err_port_zero }
      | some instances ↦ record { instances = some instances; err = none }
    ]
  ]

  -- NewInstancerDetailed, on what its lookup returned.
  pub new_instancer_detailed : Lookup → Instancer
  unfolding resolve started
  new_instancer_detailed lookup =
      let fetched = resolve lookup in
      started (record { instances = fetched.instances; err = fetched.err })

  -- A round of the loop, Register, Deregister or Stop; a tick carries what the lookup returns.
  pub loop : Round Lookup → Instancer → Instancer
  unfolding step resolve
  loop = step resolve
