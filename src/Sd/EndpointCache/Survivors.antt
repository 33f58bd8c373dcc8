-- ===== src/Sd/EndpointCache/Survivors.antt =====
-- What an update without an error does to the entries of the cache.
use mathlib.Core.List.{Memᴰ, Permᴰ}
use kit_go.Prelude.{
  ℕ, ◌≡◌, refl, String, List, [], ◌∷◌, ◌++◌, Option, none, some, arith, All, sym, ◌∙◌, str_eq_iff,
}
use kit_go.Prelude.Assoc.{string_eq, lookup, put, delete, lookup-delete}
use kit_go.Prelude.Order.{string_order}
use kit_go.Prelude.Sort.{insert, sort, sort-eq_of_perm}
use kit_go.Go.{Error}
use kit_go.Sd.{Event, Factory, elements}
use kit_go.Sd.EndpointCache.{
  Entries, EndpointCloser, EndpointCache, place, keep, collect, gather, closers, update_cache,
  update,
}
use kit_go.Sd.EndpointCache.Distinct.{Absent, IsDistinct, All-sort, IsDistinct-sort, mem-sort}
use kit_go.Sd.EndpointCache.Collect.{collect-Absent, collect_survivor, lookup-place_old}

abbrev pub healthy : List String → Event
healthy instances = record { instances = some instances; err = none }

module _ {W E C : Type 0} (factory : Factory W E C) where
  -- After an update to distinct instances, an instance that is listed and had an entry has the
  -- same entry.
  pub update_keeps :
      (now : ℕ) (instances : List String) (c : EndpointCache E C) (w : W) (i : String)
      (sc : EndpointCloser E C)
      → IsDistinct instances
      → Memᴰ i instances
      → lookup i c.cache ≡ some sc
      → lookup i (update factory now (healthy instances) c w).0.cache ≡ some sc
  unfolding update update_cache
  update_keeps now instances c w i sc d m e =
      collect_survivor factory i sc (sort instances) c.cache [] w (IsDistinct-sort instances d)
        (mem-sort i instances m) e

  -- The order in which service discovery lists the instances does not matter: the cache, the
  -- slice of endpoints, the closings and the calls of the factory are the same.
  pub update_perm :
      (now : ℕ) (xs ys : List String) (c : EndpointCache E C) (w : W)
      → Permᴰ xs ys
      → update factory now (healthy xs) c w ≡ update factory now (healthy ys) c w
  unfolding update update_cache
  update_perm now xs ys c w p = rw (sort-eq_of_perm p)

  -- Every listed instance has an entry.
  abbrev pub Known : Entries E C → List String → Type 0
  Known old = All (λ i. (sc : EndpointCloser E C) × (lookup i old ≡ some sc))

  place_world :
      (i : String) (old new : Entries E C) (w : W) {sc : EndpointCloser E C}
      → lookup i old ≡ some sc
      → (place factory i old new w).1 ≡ w
  unfolding place
  place_world i old new w h = ground arith

  Known-place :
      (i : String) (is : List String) (old new : Entries E C) (w : W)
      → Absent i is
      → Known old is
      → Known (place factory i old new w).0.old is
  Known-place i [] old new w a k = tt
  Known-place i (j ∷ is) old new w a k = (
    (k.0.0, lookup-place_old factory i j old new w (λ e. a.0 (sym e)) ∙ k.0.1),
    Known-place i is old new w a.1 k.1,
  )

  collect_world :
      (is : List String) (old new : Entries E C) (w : W)
      → IsDistinct is
      → Known old is
      → (collect factory is old new w).1 ≡ w
  unfolding collect
  collect_world [] old new w d k = refl
  collect_world (i ∷ is) old new w d k =
      let r = place factory i old new w in
      collect_world is r.0.old r.0.new r.1 d.1 (Known-place i is old new w d.0 k.1)
      ∙ place_world i old new w k.0.1

  -- An update to distinct instances that all have entries does not call the factory.
  pub update_world :
      (now : ℕ) (instances : List String) (c : EndpointCache E C) (w : W)
      → IsDistinct instances
      → Known c.cache instances
      → (update factory now (healthy instances) c w).1 ≡ w
  unfolding update update_cache
  update_world now instances c w d k =
      collect_world (sort instances) c.cache [] w (IsDistinct-sort instances d)
        (All-sort (λ i. (sc : EndpointCloser E C) × (lookup i c.cache ≡ some sc)) instances k)

  -- The entry of an instance that had one and is listed twice: what the factory makes, if it does.
  unfoldable pub replaced : String → EndpointCloser E C → W → EndpointCloser E C
  replaced i sc w =
      let made = (factory i w).0 in
      elim made.err [
        | none ↦ record { endpoint = made.service; closer = made.closer }
        | some err ↦ sc
      ]

  put_kept :
      (i : String) (sc : EndpointCloser E C) (w : W)
      → keep i (factory i w).0 ((i, sc) ∷ []) ≡ (i, replaced i sc w) ∷ []
  unfolding keep replaced put
  put_kept i sc w = ground (arith, str_eq_iff i i)

  collect_twice :
      (i : String) (sc : EndpointCloser E C) (old : Entries E C) (w : W)
      → lookup i old ≡ some sc
      → collect factory (i ∷ i ∷ []) old [] w
        ≡ (record { old = delete i old; new = (i, replaced i sc w) ∷ [] }, (factory i w).1)
  unfolding collect place put
  collect_twice i sc old w h =
      ground (arith, h, str_eq_iff i i, lookup-delete i i old, put_kept i sc w)

  -- If the event lists one instance twice and no other, and it has an entry, then the factory is
  -- called once for it, and what it makes without an error takes the place of the entry, which stays
  -- otherwise, and is answered twice. Just the closers of the other entries are closed, and so not
  -- that of an entry that was lost.
  pub duplicate_leaks :
      (now : ℕ) (i : String) (sc : EndpointCloser E C) (c : EndpointCache E C) (w : W)
      → lookup i c.cache ≡ some sc
      → let (c', w') = update factory now (healthy (i ∷ i ∷ [])) c w in
        let entry = replaced i sc w in
        (w' ≡ (factory i w).1)
        × (c'.cache ≡ (i, entry) ∷ [])
        × (c'.endpoints ≡ entry.endpoint ∷ entry.endpoint ∷ [])
        × (c'.closed ≡ c.closed ++ closers (delete i c.cache))
  unfolding update update_cache gather sort insert lookup
  duplicate_leaks now i sc c w p =
      ground (arith, str_eq_iff i i, string_order.total i i, collect_twice i sc c.cache w p)

-- No instance outside the event has an entry, and the cache is in no error state.
abbrev pub Follows : {E C : Type 0} → Event → EndpointCache E C → Type 0
Follows event c =
    (c.err ≡ none) × ((i : String) → Absent i (elements event.instances) → lookup i c.cache ≡ none)

module _ {W E C : Type 0} (factory : Factory W E C) where
  Follows-update_ok :
      (now : ℕ) (instances : Option (List String)) (err : Option Error) (c : EndpointCache E C)
      (w : W)
      → err ≡ none
      → let event : Event = record { instances = instances; err = err } in
        Follows event (update factory now event c w).0
  unfolding update update_cache lookup
  Follows-update_ok now instances none c w h = (
    refl,
    λ i a.
        (collect-Absent factory i (sort (elements instances)) c.cache [] w
          (All-sort _ (elements instances) a)).1,
  )
  Follows-update_ok now instances (some err) c w h = cc

  pub Follows-update :
      (now : ℕ) (event : Event) (c : EndpointCache E C) (w : W)
      → event.err ≡ none
      → Follows event (update factory now event c w).0
  Follows-update now event c w h = Follows-update_ok now event.instances event.err c w h
