-- ===== src/Sd/Etcd.antt =====
-- sd/etcd/instancer.go and registrar.go, over the Client of client.go, whose GetEntries returns
-- what `Fetched` holds. Stop is the round `quits`.
pub mod Registrar
use kit_go.Sd.{Event}
use kit_go.Sd.Instancer.{Fetched, Instancer, Round, started, step}

-- NewInstancer, on what GetEntries returned.
pub new_instancer : Fetched → Instancer
unfolding started
new_instancer fetched = started (record { instances = fetched.instances; err = fetched.err })

-- A round of the loop, Register, Deregister or Stop.
pub loop : Round Fetched → Instancer → Instancer
unfolding step
loop = step (λ fetched. fetched)
