-- ===== src/Sd/Zk.antt =====
-- sd/zk/instancer.go, over the Client of client.go. GetEntries returns what `Fetched` holds, and a
-- channel of notifications. Stop is the round `quits`.
use kit_go.Prelude.{Option, none, some}
use kit_go.Go.{Error}
use kit_go.Sd.Instancer.{Fetched, Instancer, Round, started, step}

-- NewInstancer, on what CreateParentNodes returned and what GetEntries would return.
pub new_instancer : Option Error → Fetched → Option Instancer × Option Error
unfolding started
new_instancer refused fetched = elim refused [
  | some err ↦ (none, some err)
  | none ↦ elim fetched.err [
    | some err ↦ (none, some err)
    | none ↦ (some (started (record { instances = fetched.instances; err = none })), none)
  ]
]

-- A round of the loop, Register, Deregister or Stop.
pub loop : Round Fetched → Instancer → Instancer
unfolding step
loop = step (λ fetched. fetched)
