-- ===== src/Sd/EndpointCache.antt =====
-- sd/endpoint_cache.go: the endpoints of the instances that service discovery last reported.
-- `E` and `C` stand for endpoints and closers, and `W` for what the factory reads and changes.
-- The calls of `Close` are kept in `closed`, in their order; times are numbers.
pub mod Distinct
pub mod Collect
pub mod Closing
pub mod Survivors
pub mod Expiry
pub mod History
use kit_go.Prelude.{
  ℕ, ◌+◌, String, Bool, true, not, List, [], ◌∷◌, ◌++◌, Option, none, some, ltb, if◌then◌else◌,
}
use kit_go.Prelude.Assoc.{string_eq, lookup, put, delete}
use kit_go.Prelude.Order.{string_order}
use kit_go.Prelude.Sort.{sort}
use kit_go.Go.{Error, Act}
use kit_go.Sd.{Event, elements, Made, Factory}

-- endpointerOptions of sd/endpointer.go
pub record EndpointerOptions : Type 0 where
  pub invalidate_on_error : Bool
  pub invalidate_timeout : ℕ

pub record EndpointCloser (E C : Type 0) : Type 0 where
  pub endpoint : E
  pub closer : Option C

abbrev pub Entries : Type 0 → Type 0 → Type 0
Entries E C = List (String × EndpointCloser E C)

pub record EndpointCache (E C : Type 0) : Type 0 where
  pub options : EndpointerOptions
  pub cache : Entries E C
  pub err : Option Error
  pub endpoints : List E
  pub invalidate_deadline : ℕ
  pub closed : List C

module _ {E C : Type 0} where
  unfoldable pub new_endpoint_cache : EndpointerOptions → EndpointCache E C
  new_endpoint_cache options = record {
    options = options;
    cache = [];
    err = none;
    endpoints = [];
    invalidate_deadline = 0;
    closed = [];
  }

  -- The entry of a factory's result, if it made one.
  pub keep : String → Made E C → Entries E C → Entries E C
  keep instance made new = elim made.err [
    | some err ↦ new
    | none ↦ put instance (record { endpoint = made.service; closer = made.closer }) new
  ]

  -- The closers of the entries of a map that have one.
  unfoldable pub closers : Entries E C → List C
  closers [] = []
  closers ((instance, sc) ∷ m) = elim sc.closer [
    | none ↦ closers m
    | some closer ↦ closer ∷ closers m
  ]

  -- The slice of endpoints, in the order of the instances.
  pub gather : List String → Entries E C → List E
  gather [] cache = []
  gather (instance ∷ rest) cache = elim (lookup instance cache) [
    | none ↦ gather rest cache
    | some sc ↦ sc.endpoint ∷ gather rest cache
  ]

  -- c.err == nil || c.timeNow().Before(c.invalidateDeadline)
  pub usable : ℕ → EndpointCache E C → Bool
  usable now c = elim c.err [ none ↦ true | some err ↦ ltb now c.invalidate_deadline ]

  -- `Endpoints`, under the read lock: the answer, or none where the write lock is taken next.
  pub endpoints_shared :
      ℕ → EndpointCache E C → Option (record { endpoints : List E; err : Option Error })
  unfolding usable
  endpoints_shared now c =
      if usable now c then some (record { endpoints = c.endpoints; err = none }) else none

module _ {W E C : Type 0} (factory : Factory W E C) where
  -- One round of the loop over the instances: the old map, the new map and the outside.
  pub place :
      String → Entries E C → Entries E C → Act W (record { old : Entries E C; new : Entries E C })
  unfolding keep
  place instance old new w = elim (lookup instance old) [
    | some sc ↦ (record { old = delete instance old; new = put instance sc new }, w)
    | none ↦
        let (made, w') = factory instance w in
        (record { old = old; new = keep instance made new }, w')
  ]

  pub collect :
      List String
      → Entries E C
      → Entries E C
      → Act W (record { old : Entries E C; new : Entries E C })
  collect [] old new w = (record { old = old; new = new }, w)
  collect (instance ∷ rest) old new w =
      let (maps, w') = place instance old new w in collect rest maps.old maps.new w'

  pub update_cache : List String → EndpointCache E C → W → EndpointCache E C × W
  update_cache instances c w =
      let sorted = sort instances in
      let (maps, w') = collect sorted c.cache [] w in
      (
        record c {
          endpoints = gather sorted maps.new;
          cache = maps.new;
          closed = c.closed ++ closers maps.old;
        },
        w',
      )

  -- `now` is what `timeNow` returns, which is asked on the last path only.
  pub update : ℕ → Event → EndpointCache E C → W → EndpointCache E C × W
  update now event c w = elim event.err [
    | none ↦
        let (c', w') = update_cache (elements event.instances) c w in (record c' { err = none }, w')
    | some err ↦ if not c.options.invalidate_on_error then (c, w) else elim c.err [
      | some earlier ↦ (c, w)
      | none ↦
          (record c { err = some err; invalidate_deadline = now + c.options.invalidate_timeout }, w)
    ]
  ]

  -- `Endpoints`, under the write lock. Other calls may have come between the two locks.
  pub endpoints_exclusive : ℕ → EndpointCache E C → W → record {
    answer : record { endpoints : List E; err : Option Error };
    after : EndpointCache E C;
    world : W;
  }
  unfolding usable
  endpoints_exclusive now c w =
      let (c', w') = update_cache [] c w in
      if usable now c
      then record { answer = record { endpoints = c.endpoints; err = none }; after = c; world = w }
      else record { answer = record { endpoints = []; err = c.err }; after = c'; world = w' }
