-- ===== src/Sd/EndpointCache/Expiry.antt =====
-- Errors from service discovery: the deadline, the answers and the return to normal.
use kit_go.Prelude.{
  ℕ, ◌+◌, ◌≤◌, ◌≡◌, refl, List, [], ◌∷◌, none, some, arith, true, false, ltb, if◌then◌else◌, ◌++◌,
  append-nil,
}
use kit_go.Prelude.Assoc.{string_eq}
use kit_go.Prelude.Sort.{sort}
use kit_go.Go.{Error}
use kit_go.Sd.{Event, Factory}
use kit_go.Sd.EndpointCache.{
  EndpointCache, closers, gather, collect, update_cache, update, endpoints_shared,
  endpoints_exclusive,
}

abbrev pub failing : Error → Event
failing err = record { instances = none; err = some err }

module _ {W E C : Type 0} (factory : Factory W E C) where
  -- A run of events with errors.
  pub fail_all : List (ℕ × Error) → EndpointCache E C → W → EndpointCache E C × W
  fail_all [] c w = (c, w)
  fail_all ((now, err) ∷ rest) c w =
      let (c', w') = update factory now (failing err) c w in fail_all rest c' w'

  update_error :
      (now : ℕ) (err e : Error) (c : EndpointCache E C) (w : W)
      → c.err ≡ some e
      → update factory now (failing err) c w ≡ (c, w)
  unfolding update
  update_error now err e c w h = ground arith

  fail_all_error :
      (rest : List (ℕ × Error)) (c : EndpointCache E C) (w : W) (e : Error)
      → c.err ≡ some e
      → fail_all rest c w ≡ (c, w)
  unfolding fail_all
  fail_all_error [] c w e h = refl
  fail_all_error ((now, err) ∷ rest) c w e h =
      rw (update_error now err e c w h) (fail_all_error rest c w e h)

  update_ignored :
      (now : ℕ) (err : Error) (c : EndpointCache E C) (w : W)
      → c.options.invalidate_on_error ≡ false
      → update factory now (failing err) c w ≡ (c, w)
  unfolding update
  update_ignored now err c w h = ground arith

  -- Without InvalidateOnError, errors change nothing.
  pub errors_ignored :
      (events : List (ℕ × Error)) (c : EndpointCache E C) (w : W)
      → c.options.invalidate_on_error ≡ false
      → fail_all events c w ≡ (c, w)
  unfolding fail_all
  errors_ignored [] c w h = refl
  errors_ignored ((now, err) ∷ rest) c w h =
      rw (update_ignored now err c w h) (errors_ignored rest c w h)

  failed : ℕ → Error → EndpointCache E C → EndpointCache E C
  failed now e c = record c {
    err = some e;
    invalidate_deadline = now + c.options.invalidate_timeout;
  }

  fail_all_first :
      (now : ℕ) (e : Error) (rest : List (ℕ × Error)) (c : EndpointCache E C) (w : W)
      → c.options.invalidate_on_error ≡ true
      → c.err ≡ none
      → fail_all ((now, e) ∷ rest) c w ≡ (failed now e c, w)
  fail_all_first now e rest c w on h =
      unfold fail_all in
      rw (first) (fail_all_error rest (failed now e c) w e (unfold failed in refl))
    where
      first : update factory now (failing e) c w ≡ (failed now e c, w)
      first = unfold update failed in ground arith

  -- With InvalidateOnError, the first of a run of errors sets the deadline and the later ones
  -- change nothing: before the deadline `Endpoints` answers with the last endpoints and no error,
  -- under either lock; from the deadline on the read lock does not answer, and the write lock
  -- answers with no endpoints and the first error.
  pub first_error_wins :
      (now later : ℕ) (e : Error) (rest : List (ℕ × Error)) (c : EndpointCache E C) (w : W)
      → c.options.invalidate_on_error ≡ true
      → c.err ≡ none
      → let c' = (fail_all ((now, e) ∷ rest) c w).0 in
        let in_time = ltb later (now + c.options.invalidate_timeout) in
        (endpoints_shared later c'
          ≡ (if in_time then some (record { endpoints = c.endpoints; err = none }) else none))
        × ((endpoints_exclusive factory later c' w).answer ≡ (
            if in_time
            then record { endpoints = c.endpoints; err = none }
            else record { endpoints = []; err = some e }))
  first_error_wins now later e rest c w on h =
      rw (fail_all_first now e rest c w on h)
        (unfold failed endpoints_shared endpoints_exclusive in (refl, ground arith))

  -- Past the deadline `Endpoints` empties the cache and closes every closer in it, without a call
  -- of the factory; asked again at any later time it gives the same answer and closes nothing.
  pub expiry :
      (now later : ℕ) (e : Error) (c : EndpointCache E C) (w : W)
      → c.err ≡ some e
      → c.invalidate_deadline ≤ now
      → now ≤ later
      → let r = endpoints_exclusive factory now c w in
        (r.after.cache ≡ [])
        × (r.after.endpoints ≡ [])
        × (r.after.closed ≡ c.closed ++ closers c.cache)
        × (r.world ≡ w)
        × (endpoints_exclusive factory later r.after w ≡ r)
  unfolding endpoints_exclusive update_cache collect gather sort closers
  expiry now later e c w h d l = ground (arith, append-nil (c.closed ++ closers c.cache))
