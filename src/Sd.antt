-- ===== src/Sd.antt =====
-- sd/instancer.go and sd/factory.go: what a service discovery system tells its observers.
pub mod EndpointCache
pub mod Instance
pub mod Endpointer
pub mod Lb
pub mod Instancer
pub mod Dnssrv
pub mod Etcd
pub mod Etcdv3
pub mod Zk
pub mod Eureka
pub mod Consul
use kit_go.Prelude.{String, List, [], Option, none, some}
use kit_go.Go.{Error, Act}

-- A nil slice of instances is `none`: reflect.DeepEqual tells it from an empty one.
pub record Event : Type 0 where
  pub instances : Option (List String)
  pub err : Option Error

abbrev pub elements {ℓ} : {A : Type ℓ} → Option (List A) → List A
elements none = []
elements (some l) = l

-- What a factory returns: an endpoint, a closer that may be nil, and an error.
pub record Made {ℓ} (E C : Type ℓ) : Type ℓ where
  pub service : E
  pub closer : Option C
  pub err : Option Error

abbrev pub Factory : Type 0 → Type 0 → Type 0 → Type 0
Factory W E C = String → Act W (Made E C)
