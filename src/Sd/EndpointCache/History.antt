-- ===== src/Sd/EndpointCache/History.antt =====
-- The cache over a whole history of events and of calls of `Endpoints`.
use kit_go.Prelude.{
  ℕ, ◌+◌, ◌≡◌, refl, String, List, [], ◌∷◌, Option, none, some, arith, Bool-cases, inl, inr, All,
}
use kit_go.Prelude.Assoc.{string_eq, IsUnique}
use kit_go.Prelude.Tally.{tally}
use kit_go.Prelude.Order.{string_order}
use kit_go.Prelude.Sort.{sort}
use kit_go.Go.{Error}
use kit_go.Sd.{Event, Factory, elements}
use kit_go.Sd.EndpointCache.{
  EndpointerOptions, EndpointCache, closers, usable, update_cache, update, endpoints_exclusive,
  new_endpoint_cache,
}
use kit_go.Sd.EndpointCache.Distinct.{IsDistinct}
use kit_go.Sd.EndpointCache.Closing.{obtained, update_cache_conserved, update_cache-IsUnique}

-- A call of the cache, with the time at which it runs.
pub data Call : Type 0 where
  updates : ℕ → Event → Call
  asks : ℕ → Call

-- Service discovery lists no instance twice in one event.
abbrev pub IsClean : Call → Type 0
IsClean (updates now event) = IsDistinct (elements event.instances)
IsClean (asks now) = Unit

module _ {W E C : Type 0} (factory : Factory W E C) where
  pub step : Call → EndpointCache E C → W → EndpointCache E C × W
  step (updates now event) c w = update factory now event c w
  step (asks now) c w = let r = endpoints_exclusive factory now c w in (r.after, r.world)

  pub run : List Call → EndpointCache E C → W → EndpointCache E C × W
  run [] c w = (c, w)
  run (call ∷ calls) c w = let (c', w') = step call c w in run calls c' w'

  module _ (f : C → ℕ) where
    -- The weight of the closers that the factory hands over during one call.
    pub obtained_step : Call → EndpointCache E C → W → ℕ
    obtained_step (updates now event) c w = elim event.err [
      | none ↦ obtained factory f (sort (elements event.instances)) c.cache [] w
      | some err ↦ 0
    ]
    obtained_step (asks now) c w = 0

    pub obtained_run : List Call → EndpointCache E C → W → ℕ
    obtained_run [] c w = 0
    obtained_run (call ∷ calls) c w =
        let (c', w') = step call c w in obtained_step call c w + obtained_run calls c' w'

    Balance : EndpointCache E C → EndpointCache E C → ℕ → Type 0
    Balance before after n =
        (IsUnique after.cache)
        × (tally f after.closed + tally f (closers after.cache)
            ≡ tally f before.closed + tally f (closers before.cache) + n)

    Balance-update_cache :
        (instances : List String) (c : EndpointCache E C) (w : W)
        → IsDistinct instances
        → IsUnique c.cache
        → Balance c
            (update_cache factory instances c w).0
            (obtained factory f (sort instances) c.cache [] w)
    unfolding Balance
    Balance-update_cache instances c w d u = (
      update_cache-IsUnique factory instances c w,
      update_cache_conserved factory f instances c w u d,
    )

    Balance-refl :
        (c after : EndpointCache E C)
        → after.cache ≡ c.cache
        → after.closed ≡ c.closed
        → IsUnique c.cache
        → Balance c after 0
    unfolding Balance
    Balance-refl c after p q u = rw (p, q) (u, omega arith)

    Balance-update :
        (now : ℕ) (instances : Option (List String)) (err : Option Error) (c : EndpointCache E C)
        (w : W)
        → let call = updates now (record { instances = instances; err = err }) in
          IsDistinct (elements instances)
          → IsUnique c.cache
          → Balance c (step call c w).0 (obtained_step call c w)
    unfolding step obtained_step update
    Balance-update now instances none c w d u =
        unfold Balance in Balance-update_cache (elements instances) c w d u
    Balance-update now instances (some err) c w d u =
        Balance-refl c _ (unfold update in ground arith) (ground arith) u

    Balance-ask :
        (now : ℕ) (c : EndpointCache E C) (w : W)
        → IsUnique c.cache
        → Balance c (step (asks now) c w).0 0
    unfolding step endpoints_exclusive obtained sort
    Balance-ask now c w u = elim (Bool-cases (usable now c)) [
      | inl e ↦ rw (e) (Balance-refl c c refl refl u)
      | inr e ↦ rw (e) (Balance-update_cache [] c w tt u)
    ]

    Balance-step :
        (call : Call) (c : EndpointCache E C) (w : W)
        → IsClean call
        → IsUnique c.cache
        → Balance c (step call c w).0 (obtained_step call c w)
    Balance-step (updates now event) c w d u = Balance-update now event.instances event.err c w d u
    Balance-step (asks now) c w d u = unfold obtained_step in Balance-ask now c w u

    Balance-run :
        (calls : List Call) (c : EndpointCache E C) (w : W)
        → All IsClean calls
        → IsUnique c.cache
        → Balance c (run calls c w).0 (obtained_run calls c w)
    unfolding run obtained_run Balance
    Balance-run [] c w d u = (u, omega arith)
    Balance-run (call ∷ calls) c w d u =
        let first = Balance-step call c w d.0 u in
        let (c', w') = step call c w in
        let rest = Balance-run calls c' w' d.1 first.0 in (rest.0, omega (arith, first.1, rest.1))

    -- Over any history in which no event lists an instance twice, no closer is lost and none is
    -- closed twice: the closers that were closed and those still in the cache are together the
    -- closers that the factory returned without an error, each as often (for every weight `f` the
    -- sums are equal).
    pub closers_conserved :
        (options : EndpointerOptions) (calls : List Call) (w : W)
        → All IsClean calls
        → let c = (run calls (new_endpoint_cache options) w).0 in
          tally f c.closed + tally f (closers c.cache)
          ≡ obtained_run calls (new_endpoint_cache options) w
    closers_conserved options calls w d =
        unfold Balance new_endpoint_cache tally closers in
        omega (arith, (Balance-run calls (new_endpoint_cache options) w d tt).1)
