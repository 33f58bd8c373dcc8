-- ===== src/Sd/EndpointCache/Closing.antt =====
-- Closers are neither lost nor closed twice.
use kit_go.Prelude.{
  ℕ, ◌+◌, ◌≡◌, refl, sym, ◌∙◌, All, String, List, [], ◌∷◌, Option, none, some, arith, Bool-cases,
  Option-cases, inl, inr, str_eq_iff,
}
use kit_go.Prelude.Assoc.{
  string_eq, lookup, delete, delete_absent, put, IsUnique, put-IsUnique, delete-IsUnique,
}
use kit_go.Prelude.Tally.{tally, tally-append, weight}
use kit_go.Prelude.Order.{string_order}
use kit_go.Prelude.Sort.{sort}
use kit_go.Sd.{Factory, Made}
use kit_go.Sd.EndpointCache.{
  Entries, EndpointCloser, EndpointCache, place, collect, keep, closers, update_cache,
}
use kit_go.Sd.EndpointCache.Distinct.{IsDistinct, Absent, IsDistinct-sort}
use kit_go.Sd.EndpointCache.Collect.{lookup-place_new}

module _ {E C : Type 0} (f : C → ℕ) where
  tally-closers_cons :
      (i : String) (sc : EndpointCloser E C) (m : Entries E C)
      → tally f (closers ((i, sc) ∷ m)) ≡ weight f sc.closer + tally f (closers m)
  unfolding closers tally
  tally-closers_cons i sc m = ground arith

  tally-closers-put :
      (i : String) (sc : EndpointCloser E C) (m : Entries E C)
      → lookup i m ≡ none
      → tally f (closers (put i sc m)) ≡ tally f (closers m) + weight f sc.closer
  unfolding put lookup
  tally-closers-put i sc [] h = ground (arith, tally-closers_cons i sc [])
  tally-closers-put i sc ((j, sd) ∷ m) h = ground (
    arith,
    tally-closers-put i sc m,
    tally-closers_cons j sd m,
    tally-closers_cons j sd (put i sc m),
  )

  tally-closers-delete :
      (i : String) (m : Entries E C) (sc : EndpointCloser E C)
      → IsUnique m
      → lookup i m ≡ some sc
      → tally f (closers m) ≡ tally f (closers (delete i m)) + weight f sc.closer
  unfolding delete lookup
  tally-closers-delete i [] sc u h = cc
  tally-closers-delete i ((j, sd) ∷ m) sc u h = elim (Bool-cases (string_eq.beq j i)) [
    | inl same ↦
        rw (same, delete_absent i m (rw (← (str_eq_iff j i).0 same) u.0))
          (ground (arith, tally-closers_cons j sd m))
    | inr other ↦ rw other (
        ground (
          arith,
          tally-closers_cons j sd m,
          tally-closers_cons j sd (delete i m),
          tally-closers-delete i m sc u.1,
        ))
  ]

-- The weight of what a factory returned, if it is kept.
abbrev made_weight : {E C : Type 0} → (C → ℕ) → Made E C → ℕ
made_weight f made = elim made.err [ some err ↦ 0 | none ↦ weight f made.closer ]

abbrev obtained_at : {E C : Type 0} → (C → ℕ) → Option (EndpointCloser E C) → Made E C → ℕ
obtained_at f (some sc) made = 0
obtained_at f none made = made_weight f made

module _ {W E C : Type 0} (factory : Factory W E C) (f : C → ℕ) where
  -- The weight of the closers that the factory hands over for new instances.
  unfoldable pub obtained : List String → Entries E C → Entries E C → W → ℕ
  obtained [] old new w = 0
  obtained (i ∷ is) old new w =
      let r = place factory i old new w in
      obtained_at f (lookup i old) (factory i w).0 + obtained is r.0.old r.0.new r.1

  tally-place :
      (i : String) (old new : Entries E C) (w : W)
      → IsUnique old
      → lookup i new ≡ none
      → let r = place factory i old new w in
        tally f (closers r.0.old) + tally f (closers r.0.new)
        ≡ tally f (closers old)
          + tally f (closers new)
          + obtained_at f (lookup i old) (factory i w).0
  unfolding place keep
  tally-place i old new w u h = elim (Option-cases (lookup i old)) [
    | inl e ↦ rw (e, place) (kept (factory i w).0)
    | inr (sc, e) ↦
        rw (e, place)
          (ground (arith, tally-closers-delete f i old sc u e, tally-closers-put f i sc new h))
  ]
    where
      kept :
          (made : Made E C)
          → tally f (closers old) + tally f (closers (keep i made new))
            ≡ tally f (closers old) + tally f (closers new) + made_weight f made
      kept made = ground (
        arith,
        tally-closers-put f i (record { endpoint = made.service; closer = made.closer }) new h,
      )

  IsUnique-place_old :
      (i : String) (old new : Entries E C) (w : W)
      → IsUnique old
      → IsUnique (place factory i old new w).0.old
  unfolding place
  IsUnique-place_old i old new w u = elim (Option-cases (lookup i old)) [
    | inl e ↦ rw (e, place) u
    | inr (sc, e) ↦ rw (e, place) (delete-IsUnique i old u)
  ]

  lookup-place-All :
      (i : String) (is : List String) (old new : Entries E C) (w : W)
      → Absent i is
      → All (λ j. lookup j new ≡ none) is
      → All (λ j. lookup j (place factory i old new w).0.new ≡ none) is
  lookup-place-All i [] old new w a h = tt
  lookup-place-All i (j ∷ is) old new w a h = (
    lookup-place_new factory i j old new w (λ e. a.0 (sym e)) ∙ h.0,
    lookup-place-All i is old new w a.1 h.1,
  )

  tally-collect :
      (is : List String) (old new : Entries E C) (w : W)
      → IsUnique old
      → IsDistinct is
      → All (λ j. lookup j new ≡ none) is
      → let r = collect factory is old new w in
        tally f (closers r.0.old) + tally f (closers r.0.new)
        ≡ tally f (closers old) + tally f (closers new) + obtained is old new w
  unfolding collect obtained
  tally-collect [] old new w u d h = omega arith
  tally-collect (i ∷ is) old new w u d h =
      let r = place factory i old new w in
      omega (
        arith,
        tally-place i old new w u h.0,
        tally-collect is r.0.old r.0.new r.1 (IsUnique-place_old i old new w u) d.1
            (lookup-place-All i is old new w d.0 h.1),
      )

  none_everywhere : (is : List String) → All (λ j. lookup {V = EndpointCloser E C} j [] ≡ none) is
  unfolding lookup
  none_everywhere [] = tt
  none_everywhere (i ∷ is) = (refl, none_everywhere is)

  -- Over one call of `updateCache` with distinct instances.
  pub update_cache_conserved :
      (instances : List String) (c : EndpointCache E C) (w : W)
      → IsUnique c.cache
      → IsDistinct instances
      → let after = (update_cache factory instances c w).0 in
        tally f after.closed + tally f (closers after.cache)
        ≡ tally f c.closed + tally f (closers c.cache) + obtained (sort instances) c.cache [] w
  unfolding update_cache closers tally
  update_cache_conserved instances c w u d = omega (
    arith,
    tally-append f c.closed (closers (collect factory (sort instances) c.cache [] w).0.old),
    tally-collect (sort instances) c.cache [] w u (IsDistinct-sort instances d)
        (none_everywhere (sort instances)),
  )

module _ {W E C : Type 0} (factory : Factory W E C) where
  IsUnique-place_new :
      (i : String) (old new : Entries E C) (w : W)
      → IsUnique new
      → IsUnique (place factory i old new w).0.new
  unfolding place keep
  IsUnique-place_new i old new w u = elim (Option-cases (lookup i old)) [
    | inl e ↦ rw (e, place) (kept (factory i w).0)
    | inr (sc, e) ↦ rw (e, place) (put-IsUnique i sc new u)
  ]
    where
      kept : (made : Made E C) → IsUnique (keep i made new)
      kept made = elim (Option-cases made.err) [
        | inl e ↦
            rw (e, keep)
              (put-IsUnique i (record { endpoint = made.service; closer = made.closer }) new u)
        | inr (err, e) ↦ rw (e, keep) u
      ]

  IsUnique-collect_new :
      (is : List String) (old new : Entries E C) (w : W)
      → IsUnique new
      → IsUnique (collect factory is old new w).0.new
  unfolding collect
  IsUnique-collect_new [] old new w u = u
  IsUnique-collect_new (i ∷ is) old new w u =
      let r = place factory i old new w in
      IsUnique-collect_new is r.0.old r.0.new r.1 (IsUnique-place_new i old new w u)

  pub update_cache-IsUnique :
      (instances : List String) (c : EndpointCache E C) (w : W)
      → IsUnique (update_cache factory instances c w).0.cache
  unfolding update_cache
  update_cache-IsUnique instances c w = IsUnique-collect_new (sort instances) c.cache [] w tt
