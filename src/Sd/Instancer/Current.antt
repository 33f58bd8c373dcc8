-- ===== src/Sd/Instancer/Current.antt =====
-- An instancer tells its observers what its last lookup found.
use mathlib.Core.List.{Memᴰ}
use kit_go.Prelude.{
  ℕ, ◌≡◌, refl, ap, ◌∙◌, Bool, true, false, Bool-cases, inl, inr, List, [], ◌∷◌, ◌++◌, some, All,
  if◌then◌else◌,
}
use kit_go.Sd.{Event}
use kit_go.Sd.Instance as Instance
use kit_go.Sd.Instance.{Cache, new_cache, sorted, register, deregister}
use kit_go.Sd.Instance.Equal.{deep_equal, deep_equal_iff}
use kit_go.Sd.Instance.Current.{
  Call, updates, registers as call_registers, deregisters as call_deregisters, last_received,
  last_received-run,
}
use kit_go.Sd.Instance.Current as Cached
use kit_go.Sd.Instancer.{
  Fetched, Instancer, Round, notified, registers, deregisters, quits, event_of, handle, step, run,
  started,
}

pub state-update : (event : Event) (c : Cache) → (Instance.update event c).state ≡ sorted event
unfolding Instance.update
state-update event c = elim (Bool-cases (deep_equal c.state (sorted event))) [
  | inl p ↦ rw (p) ((deep_equal_iff c.state (sorted event)).0 p)
  | inr p ↦ rw (p) refl
]

module _ {A : Type 0} (fetch : A → Fetched) where
  -- The calls of the cache that some rounds make.
  pub calls_of : Bool → List (Round A) → List Call
  calls_of running [] = []
  calls_of running (notified a ∷ rounds) =
      let rest = calls_of running rounds in
      if running then updates (event_of (fetch a)) ∷ rest else rest
  calls_of running (registers ch ∷ rounds) = call_registers ch ∷ calls_of running rounds
  calls_of running (deregisters ch ∷ rounds) = call_deregisters ch ∷ calls_of running rounds
  calls_of running (quits ∷ rounds) = calls_of false rounds

  pub run-calls_of :
      (rounds : List (Round A)) (cache : Cache) (running : Bool)
      → (run fetch rounds (record { cache = cache; running = running })).cache
        ≡ Cached.run (calls_of running rounds) cache
  unfolding run step handle calls_of Cached.run Cached.step
  run-calls_of [] cache running = refl
  run-calls_of (notified a ∷ rounds) cache true =
      run-calls_of rounds (Instance.update (event_of (fetch a)) cache) true
  run-calls_of (notified a ∷ rounds) cache false = run-calls_of rounds cache false
  run-calls_of (registers ch ∷ rounds) cache running =
      run-calls_of rounds (register ch cache) running
  run-calls_of (deregisters ch ∷ rounds) cache running =
      run-calls_of rounds (deregister ch cache) running
  run-calls_of (quits ∷ rounds) cache running = run-calls_of rounds cache false

  -- Neither a lookup nor the end of the goroutine.
  abbrev pub Quiet : Round A → Type 0
  Quiet (notified a) = ⊥
  Quiet (registers ch) = Unit
  Quiet (deregisters ch) = Unit
  Quiet quits = ⊥

  -- A round before the goroutine ends.
  abbrev pub Runs : Round A → Type 0
  Runs quits = ⊥
  Runs _ = Unit

  run-append :
      (xs ys : List (Round A)) (in' : Instancer)
      → run fetch (xs ++ ys) in' ≡ run fetch ys (run fetch xs in')
  unfolding run
  run-append [] ys in' = refl
  run-append (x ∷ xs) ys in' = run-append xs ys (step fetch x in')

  Quiet-state :
      (rounds : List (Round A)) (in' : Instancer)
      → All Quiet rounds
      → (run fetch rounds in').cache.state ≡ in'.cache.state
  unfolding run step register deregister
  Quiet-state [] in' h = refl
  Quiet-state (notified a ∷ rounds) in' (h, hs) = elim h [ ]
  Quiet-state (registers ch ∷ rounds) in' (h, hs) =
      Quiet-state rounds (step fetch (registers ch) in') hs
  Quiet-state (deregisters ch ∷ rounds) in' (h, hs) =
      Quiet-state rounds (step fetch (deregisters ch) in') hs
  Quiet-state (quits ∷ rounds) in' (h, hs) = elim h [ ]

  still_running :
      (rounds : List (Round A)) (in' : Instancer)
      → All Runs rounds
      → in'.running ≡ true
      → (run fetch rounds in').running ≡ true
  unfolding run step handle
  still_running [] in' h r = r
  still_running (notified a ∷ rounds) in' (h, hs) r =
      still_running rounds (step fetch (notified a) in') hs (rw (r) refl)
  still_running (registers ch ∷ rounds) in' (h, hs) r =
      still_running rounds (step fetch (registers ch) in') hs r
  still_running (deregisters ch ∷ rounds) in' (h, hs) r =
      still_running rounds (step fetch (deregisters ch) in') hs r
  still_running (quits ∷ rounds) in' (h, hs) r = elim h [ ]

  pub last_state :
      (first : Event) (before after : List (Round A)) (a : A)
      → All Runs before
      → All Quiet after
      → (run fetch (before ++ notified a ∷ after) (started first)).cache.state
        ≡ sorted (event_of (fetch a))
  unfolding run step handle started
  last_state first before after a runs quiet =
      let in' = run fetch before (started first) in
      ap (λ i. i.cache.state) (run-append before (notified a ∷ after) (started first))
      ∙ Quiet-state after (step fetch (notified a) in') quiet
      ∙ rw (still_running before (started first) runs refl)
          (state-update (event_of (fetch a)) in'.cache)

  told_state :
      (first : Event) (rounds : List (Round A)) (ch : ℕ)
      → Memᴰ ch (run fetch rounds (started first)).cache.reg
      → last_received ch (run fetch rounds (started first)).cache.sent
        ≡ some (run fetch rounds (started first)).cache.state
  unfolding started Cached.run Cached.step
  told_state first rounds ch =
      rw (run-calls_of rounds (Instance.update first new_cache) true)
        (last_received-run (updates first ∷ calls_of true rounds) ch)

  -- After any rounds before the goroutine ends and a last notification that it handles, the state
  -- of the cache is the event of that lookup, with its instances sorted, and this is what every
  -- observer that is registered in the end was last told.
  pub run-notified :
      (first : Event) (before after : List (Round A)) (a : A) (ch : ℕ)
      → All Runs before
      → All Quiet after
      → let in' = run fetch (before ++ notified a ∷ after) (started first) in
        Memᴰ ch in'.cache.reg
        → (in'.cache.state ≡ sorted (event_of (fetch a)))
          × (last_received ch in'.cache.sent ≡ some (sorted (event_of (fetch a))))
  unfolding started
  run-notified first before after a ch runs quiet m =
      let rounds = before ++ notified a ∷ after in
      let current = last_state first before after a runs quiet in
      let told = told_state first rounds ch m in (current, told ∙ ap some current)
