-- ===== src/Sd/Etcdv3.antt =====
-- sd/etcdv3/instancer.go, over the Client of client.go, whose GetEntries returns what `Fetched`
-- holds. Stop is the round `quits`.
use kit_go.Sd.Instancer.{Fetched, Instancer, Round, started, step}

-- NewInstancer, on what GetEntries returned.
pub new_instancer : Fetched → Instancer
unfolding started
new_instancer fetched = started (record { instances = fetched.instances; err = fetched.err })

-- A round of the loop, Register, Deregister or Stop.
pub loop : Round Fetched → Instancer → Instancer
unfolding step
loop = step (λ fetched. fetched)
