-- ===== src/Sd/Instancer.antt =====
-- What the instancers of sd/dnssrv, sd/etcd, sd/etcdv3, sd/zk and sd/eureka share: a goroutine that
-- looks the instances up whenever it is told to, and a cache with its observers.
pub mod Current
pub mod Endpoints
use kit_go.Prelude.{ℕ, String, Bool, true, false, List, [], ◌∷◌, Option, none, some, if◌then◌else◌}
use kit_go.Go.{Error}
use kit_go.Sd.{Event}
use kit_go.Sd.Instance as Instance
use kit_go.Sd.Instance.{Cache, new_cache}

-- What a lookup returns.
pub record Fetched : Type 0 where
  pub instances : Option (List String)
  pub err : Option Error

-- The event of a lookup: that of an error has no instances.
unfoldable pub event_of : Fetched → Event
event_of fetched = elim fetched.err [
  | some err ↦ record { instances = none; err = some err }
  | none ↦ record { instances = fetched.instances; err = none }
]

-- The goroutine runs until it receives from the channel that Stop closes.
pub record Instancer : Type 0 where
  pub cache : Cache
  pub running : Bool

-- What happens to an instancer; a notification that the goroutine handles carries what it makes the
-- goroutine learn.
pub data Round (A : Type 0) : Type 0 where
  notified : A → Round A
  registers deregisters : ℕ → Round A
  quits : Round A

-- A round of the loop that a notification starts.
unfoldable pub handle : Fetched → Instancer → Instancer
handle fetched in' =
    if in'.running then record in' { cache = Instance.update (event_of fetched) in'.cache } else in'

module _ {A : Type 0} (fetch : A → Fetched) where
  unfoldable pub step : Round A → Instancer → Instancer
  unfolding Instance.register Instance.deregister
  step (notified a) in' = handle (fetch a) in'
  step (registers ch) in' = record in' { cache = Instance.register ch in'.cache }
  step (deregisters ch) in' = record in' { cache = Instance.deregister ch in'.cache }
  step quits in' = record in' { running = false }

  unfoldable pub run : List (Round A) → Instancer → Instancer
  run [] in' = in'
  run (round ∷ rounds) in' = run rounds (step round in')

-- An instancer whose cache got its first event.
unfoldable pub started : Event → Instancer
started event = record { cache = Instance.update event new_cache; running = true }
