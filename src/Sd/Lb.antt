-- ===== src/Sd/Lb.antt =====
-- sd/lb: load balancers over the endpoints of an endpointer.
pub mod RoundRobin
pub mod Random
pub mod Retry
use kit_go.Prelude.{List, Option, none, some}
use kit_go.Go.{Error, errors_new}

-- What an Endpointer answers.
pub record Answer (E : Type 0) : Type 0 where
  pub endpoints : List E
  pub err : Option Error

-- What a Balancer answers: an endpoint, which may be nil, and an error.
pub record Choice (E : Type 0) : Type 0 where
  pub endpoint : Option E
  pub err : Option Error

-- ErrNoEndpoints of sd/lb/balancer.go
abbrev pub err_no_endpoints : Error
err_no_endpoints = errors_new "no endpoints available"
