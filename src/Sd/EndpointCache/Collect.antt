-- ===== src/Sd/EndpointCache/Collect.antt =====
-- The loop over the instances, one lemma for each thing that it does to a key.
use mathlib.Core.List.{Memᴰ}
use mathlib.Core.List.Memᴰ.{head, tail}
use kit_go.Prelude.{◌≡◌, ◌≢◌, refl, ◌∙◌, String, List, [], ◌∷◌, none, some, arith, str_eq_iff}
use kit_go.Prelude.Assoc.{string_eq, lookup, lookup-put, lookup-delete, lookup-put_self}
use kit_go.Sd.{Factory}
use kit_go.Sd.EndpointCache.{Entries, EndpointCloser, place, collect, keep}
use kit_go.Sd.EndpointCache.Distinct.{Absent, IsDistinct, Absent-mem}

module _ {W E C : Type 0} (factory : Factory W E C) where
  module _ (i j : String) (old new : Entries E C) (w : W) where
    pub lookup-place_old : i ≢ j → lookup j (place factory i old new w).0.old ≡ lookup j old
    unfolding place
    lookup-place_old h = ground (arith, lookup-delete i j old, str_eq_iff i j)

    lookup-place-none : lookup j old ≡ none → lookup j (place factory i old new w).0.old ≡ none
    unfolding place
    lookup-place-none h = ground (arith, lookup-delete i j old)

    pub lookup-place_new : i ≢ j → lookup j (place factory i old new w).0.new ≡ lookup j new
    unfolding place keep
    lookup-place_new h = grind (arith, lookup-put, str_eq_iff i j)

  module _ (i : String) (old new : Entries E C) (w : W) where
    lookup-place_self : lookup i (place factory i old new w).0.old ≡ none
    unfolding place
    lookup-place_self = ground (arith, lookup-delete i i old, str_eq_iff i i)

    place_survivor :
        (sc : EndpointCloser E C)
        → lookup i old ≡ some sc
        → lookup i (place factory i old new w).0.new ≡ some sc
    unfolding place
    place_survivor sc h = rw (h, place) (lookup-put_self i sc new)

  pub collect-Absent :
      (j : String) (is : List String) (old new : Entries E C) (w : W)
      → Absent j is
      → (lookup j (collect factory is old new w).0.old ≡ lookup j old)
        × (lookup j (collect factory is old new w).0.new ≡ lookup j new)
  unfolding collect
  collect-Absent j [] old new w a = (refl, refl)
  collect-Absent j (i ∷ is) old new w a =
      let r = place factory i old new w in
      let ih = collect-Absent j is r.0.old r.0.new r.1 a.1 in
      (ih.0 ∙ lookup-place_old i j old new w a.0, ih.1 ∙ lookup-place_new i j old new w a.0)

  collect-none :
      (j : String) (is : List String) (old new : Entries E C) (w : W)
      → lookup j old ≡ none
      → lookup j (collect factory is old new w).0.old ≡ none
  unfolding collect
  collect-none j [] old new w h = h
  collect-none j (i ∷ is) old new w h =
      let r = place factory i old new w in
      collect-none j is r.0.old r.0.new r.1 (lookup-place-none i j old new w h)

  -- What is listed is no longer in the old map.
  pub collect_mem :
      (j : String) (is : List String) (old new : Entries E C) (w : W)
      → Memᴰ j is
      → lookup j (collect factory is old new w).0.old ≡ none
  unfolding collect
  collect_mem j [] old new w h = elim h [ ]
  collect_mem j (i ∷ is) old new w (head p) =
      let r = place factory i old new w in
      collect-none j is r.0.old r.0.new r.1 (rw p (lookup-place_self i old new w))
  collect_mem j (i ∷ is) old new w (tail t) =
      let r = place factory i old new w in collect_mem j is r.0.old r.0.new r.1 t

  pub collect_survivor :
      (j : String) (sc : EndpointCloser E C) (is : List String) (old new : Entries E C) (w : W)
      → IsDistinct is
      → Memᴰ j is
      → lookup j old ≡ some sc
      → lookup j (collect factory is old new w).0.new ≡ some sc
  unfolding collect
  collect_survivor j sc [] old new w d h e = elim h [ ]
  collect_survivor j sc (i ∷ is) old new w d (head p) e =
      let r = place factory i old new w in
      (collect-Absent j is r.0.old r.0.new r.1 (rw p d.0)).1
      ∙ rw p (place_survivor i old new w sc (rw (← p) e))
  collect_survivor j sc (i ∷ is) old new w d (tail t) e =
      let r = place factory i old new w in
      collect_survivor j sc is r.0.old r.0.new r.1 d.1 t
        (lookup-place_old i j old new w (Absent-mem d.0 t) ∙ e)
