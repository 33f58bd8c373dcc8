-- ===== src/Sd/Instance/Current.antt =====
-- What the registered channels have been told.
use mathlib.Core.List.{Memᴰ, Permᴰ}
use mathlib.Core.List.Memᴰ.{head, tail}
use kit_go.Prelude.{
  ℕ, ◌≡◌, ◌≢◌, ◌⊎◌, refl, sym, ◌∙◌, Bool-cases, inl, inr, ◌==◌, ==_iff, List, [], ◌∷◌, ◌++◌, Option,
  none, some, arith, String, if◌then◌else◌, true, false,
}
use kit_go.Prelude.Order.{string_order}
use kit_go.Prelude.Sort.{sort-eq_of_perm}
use kit_go.Go.{Error}
use kit_go.Sd.{Event}
use kit_go.Sd.Instance.{
  Cache, new_cache, sorted, sort_instances, broadcast, contains, add, remove, update, register,
  deregister,
}
use kit_go.Sd.Instance.Equal.{deep_equal, deep_equal_iff}

-- The events that were sent to a channel, in their order.
unfoldable pub received : ℕ → List (ℕ × Event) → List Event
received ch [] = []
received ch ((c, e) ∷ sent) = let rest = received ch sent in if c == ch then e ∷ rest else rest

unfoldable pub last_or : {A : Type 0} → Option A → List A → Option A
last_or d [] = d
last_or d (x ∷ xs) = last_or (some x) xs

received-append :
    (ch : ℕ) (xs ys : List (ℕ × Event)) → received ch (xs ++ ys) ≡ received ch xs ++ received ch ys
unfolding received
received-append ch [] ys = refl
received-append ch ((c, e) ∷ xs) ys = ground (arith, received-append ch xs ys)

last_or-append :
    {A : Type 0} (d : Option A) (xs ys : List A) → last_or d (xs ++ ys) ≡ last_or (last_or d xs) ys
unfolding last_or
last_or-append d [] ys = refl
last_or-append d (x ∷ xs) ys = last_or-append (some x) xs ys

abbrev pub last_received : ℕ → List (ℕ × Event) → Option Event
last_received ch sent = last_or none (received ch sent)

-- An event without instances is sorted.
pub sorted_error :
    (err : Error)
    → sorted (record { instances = none; err = some err })
      ≡ record { instances = none; err = some err }
unfolding sorted sort_instances
sorted_error err = refl

-- Only the instances are sorted.
pub sorted_fields :
    (event : Event)
    → sorted event ≡ record { instances = sort_instances event.instances; err = event.err }
unfolding sorted
sorted_fields event = refl

pub data Call : Type 0 where
  updates : Event → Call
  registers deregisters : ℕ → Call

unfoldable pub step : Call → Cache → Cache
step (updates event) c = update event c
step (registers ch) c = register ch c
step (deregisters ch) c = deregister ch c

unfoldable pub run : List Call → Cache → Cache
run [] c = c
run (call ∷ calls) c = run calls (step call c)

abbrev pub IsCurrent : Cache → Type 0
IsCurrent c = (ch : ℕ) → Memᴰ ch c.reg → last_received ch c.sent ≡ some c.state

-- Whatever it was told before, a channel that is told `e` last heard `e`.
last_broadcast_told :
    (ch : ℕ) (reg : List ℕ) (e : Event) → last_or (some e) (received ch (broadcast reg e)) ≡ some e
unfolding last_or received broadcast
last_broadcast_told ch [] e = refl
last_broadcast_told ch (c ∷ reg) e = ground (arith, last_broadcast_told ch reg e)

last_broadcast :
    (d : Option Event) (e : Event) (reg : List ℕ) (ch : ℕ)
    → Memᴰ ch reg
    → last_or d (received ch (broadcast reg e)) ≡ some e
unfolding last_or received broadcast
last_broadcast d e [] ch m = elim m [ ]
last_broadcast d e (c ∷ reg) ch (head p) = ground (arith, last_broadcast_told ch reg e)
last_broadcast d e (c ∷ reg) ch (tail m) =
    ground (arith, last_broadcast_told ch reg e, last_broadcast d e reg ch m)

contains_mem : (ch : ℕ) (reg : List ℕ) → contains ch reg ≡ true → Memᴰ ch reg
unfolding contains
contains_mem ch [] h = cc
contains_mem ch (c ∷ reg) h = elim (Bool-cases (c == ch)) [
  | inl e ↦ head (sym ((==_iff c ch).0 e))
  | inr e ↦ tail (contains_mem ch reg (ground arith))
]

mem-add : (ch j : ℕ) (reg : List ℕ) → Memᴰ j (add ch reg) → (j ≡ ch) ⊎ Memᴰ j reg
unfolding add
mem-add ch j reg m = elim (Bool-cases (contains ch reg)) [
  | inl e ↦ inr (rw e at m)
  | inr e ↦ split (rw e at m)
]
  where
    split : Memᴰ j (ch ∷ reg) → (j ≡ ch) ⊎ Memᴰ j reg
    split (head p) = inl p
    split (tail t) = inr t

mem-remove : (ch j : ℕ) (reg : List ℕ) → Memᴰ j (remove ch reg) → Memᴰ j reg × (j ≢ ch)
unfolding remove
mem-remove ch j [] m = elim m [ ]
mem-remove ch j (c ∷ reg) m = elim (Bool-cases (c == ch)) [
  | inl e ↦ let (a, b) = mem-remove ch j reg (rw e at m) in (tail a, b)
  | inr e ↦ split (mem-remove ch j reg) e (rw e at m)
]
  where
    split :
        (Memᴰ j (remove ch reg) → Memᴰ j reg × (j ≢ ch))
        → (c == ch) ≡ false
        → Memᴰ j (c ∷ remove ch reg)
        → Memᴰ j (c ∷ reg) × (j ≢ ch)
    split ih e (head p) = (head p, λ q. ground arith)
    split ih e (tail t) = let (a, b) = ih t in (tail a, b)

last_received-append :
    (ch : ℕ) (xs ys : List (ℕ × Event))
    → last_received ch (xs ++ ys) ≡ last_or (last_received ch xs) (received ch ys)
last_received-append ch xs ys =
    rw (received-append ch xs ys) (last_or-append none (received ch xs) (received ch ys))

update-IsCurrent : (event : Event) (c : Cache) → IsCurrent c → IsCurrent (update event c)
unfolding update
update-IsCurrent event c h ch m = elim (Bool-cases (deep_equal c.state (sorted event))) [
  | inl e ↦ rw e (h ch (rw e at m))
  | inr e ↦ rw e (
      last_received-append ch c.sent (broadcast c.reg (sorted event))
      ∙ last_broadcast _ (sorted event) c.reg ch (rw e at m))
]

register-IsCurrent : (ch : ℕ) (c : Cache) → IsCurrent c → IsCurrent (register ch c)
unfolding register
register-IsCurrent ch c h j m =
    last_received-append j c.sent ((ch, c.state) ∷ []) ∙ elim (mem-add ch j c.reg m) [
      | inl e ↦ unfold received last_or in ground arith
      | inr old ↦ unfold received last_or in ground (arith, h j old)
    ]

deregister-IsCurrent : (ch : ℕ) (c : Cache) → IsCurrent c → IsCurrent (deregister ch c)
unfolding deregister
deregister-IsCurrent ch c h j m = h j (mem-remove ch j c.reg m).0

step-IsCurrent : (call : Call) (c : Cache) → IsCurrent c → IsCurrent (step call c)
unfolding step
step-IsCurrent (updates event) c h = update-IsCurrent event c h
step-IsCurrent (registers ch) c h = register-IsCurrent ch c h
step-IsCurrent (deregisters ch) c h = deregister-IsCurrent ch c h

run-IsCurrent : (calls : List Call) (c : Cache) → IsCurrent c → IsCurrent (run calls c)
unfolding run
run-IsCurrent [] c h = h
run-IsCurrent (call ∷ calls) c h = run-IsCurrent calls (step call c) (step-IsCurrent call c h)

IsCurrent-new_cache : IsCurrent new_cache
unfolding new_cache
IsCurrent-new_cache ch m = elim m [ ]

-- After any history of a new cache, every registered channel was last told the current state.
pub last_received-run :
    (calls : List Call) (ch : ℕ)
    → Memᴰ ch (run calls new_cache).reg
    → last_received ch (run calls new_cache).sent ≡ some (run calls new_cache).state
last_received-run calls ch m = run-IsCurrent calls new_cache IsCurrent-new_cache ch m

update_twice : (event : Event) (c : Cache) → update event (update event c) ≡ update event c
unfolding update
update_twice event c = elim (Bool-cases (deep_equal c.state (sorted event))) [
  | inl e ↦ rw (e, e)
  | inr e ↦ rw (e, (deep_equal_iff (sorted event) (sorted event)).1 refl)
]

-- After an update, one that lists the same instances in any order tells nobody anything and
-- changes nothing.
pub update_same_instances :
    (xs ys : List String) (c : Cache)
    → Permᴰ xs ys
    → let c' = update (record { instances = some xs; err = none }) c in
      update (record { instances = some ys; err = none }) c' ≡ c'
update_same_instances xs ys c p = same_sorted p ∙ update_twice _ c
  where
    same_sorted :
        Permᴰ xs ys
        → let c' = update (record { instances = some xs; err = none }) c in
          update (record { instances = some ys; err = none }) c'
          ≡ update (record { instances = some xs; err = none }) c'
    same_sorted q = unfold update sort_instances in rw (sort-eq_of_perm q)
