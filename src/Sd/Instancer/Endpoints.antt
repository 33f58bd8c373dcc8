-- ===== src/Sd/Instancer/Endpoints.antt =====
-- sd: from the lookup of an instancer to the endpoints of an endpointer that is registered with it.
use mathlib.Core.List.{Memᴰ}
use kit_go.Prelude.{
  ℕ, String, true, ◌≡◌, ◌≢◌, refl, sym, ap, subst, ◌∙◌, List, ◌∷◌, ◌++◌, map, Option, none, some,
  All,
}
use kit_go.Prelude.Assoc.{string_eq, lookup}
use kit_go.Prelude.Order.{string_order}
use kit_go.Sd.{Event, Factory, elements}
use kit_go.Sd.Instance as Instance
use kit_go.Sd.Instance.{sorted, sort_instances}
use kit_go.Sd.Instance.Current as Cached
use kit_go.Sd.EndpointCache.{EndpointerOptions}
use kit_go.Sd.EndpointCache.Distinct.{Absent, All-sort}
use kit_go.Sd.Endpointer.{new_endpointer, receive, receive-follows_instancer}
use kit_go.Sd.Instancer.{Fetched, Round, notified, run, started, event_of}
use kit_go.Sd.Instancer.Current.{Runs, Quiet, calls_of, run-calls_of, last_state}

-- The event of a lookup without an error.
event_of_good :
    (fetched : Fetched)
    → fetched.err ≡ none
    → event_of fetched ≡ record { instances = fetched.instances; err = none }
unfolding event_of
event_of_good fetched e = rw (e, event_of) refl

Absent-sort_instances :
    (i : String) (instances : Option (List String))
    → Absent i (elements instances)
    → Absent i (elements (sort_instances instances))
unfolding sort_instances
Absent-sort_instances i none a = a
Absent-sort_instances i (some l) a = All-sort (λ b. b ≢ i) l a

module _ {A W E C : Type 0} (fetch : A → Fetched) (factory : Factory W E C) where
  -- If an endpointer is registered with an instancer in the end, and has handled all that its
  -- channel was told, then it reports no error and has no entry for an instance that the last lookup
  -- did not find, where this lookup had no error and the goroutine had not ended.
  pub receive-follows_lookup :
      (first : Event) (before after : List (Round A)) (a : A) (ch : ℕ) (events : List (ℕ × Event))
      (options : List (EndpointerOptions → EndpointerOptions)) (w : W) (i : String)
      → All (Runs fetch) before
      → All (Quiet fetch) after
      → let in' = run fetch (before ++ notified a ∷ after) (started first) in
        let c = (receive factory events (new_endpointer options) w).0 in
        Memᴰ ch in'.cache.reg
        → map (λ p. p.1) events ≡ Cached.received ch in'.cache.sent
        → (fetch a).err ≡ none
        → Absent i (elements (fetch a).instances)
        → (c.err ≡ none) × (lookup i c.cache ≡ none)
  unfolding started Cached.run Cached.step
  receive-follows_lookup first before after a ch events options w i runs quiet m handled good
        absent =
      let rounds = before ++ notified a ∷ after in
      let calls = Cached.updates first ∷ calls_of fetch true rounds in
      let same = run-calls_of fetch rounds (Instance.update first Instance.new_cache) true in
      let state =
        ap (λ c. c.state) (sym same)
        ∙ last_state fetch first before after a runs quiet
        ∙ ap sorted (event_of_good (fetch a) good)
        ∙ Cached.sorted_fields (record { instances = (fetch a).instances; err = none }) in
      receive-follows_instancer factory calls ch events options w i
        (subst (λ c. Memᴰ ch c.reg) same m) (handled ∙ ap (λ c. Cached.received ch c.sent) same)
        (ap (λ e. e.err) state)
        (subst (λ e. Absent i (elements e.instances)) (sym state)
          (Absent-sort_instances i (fetch a).instances absent))
