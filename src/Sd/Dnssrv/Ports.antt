-- ===== src/Sd/Dnssrv/Ports.antt =====
-- sd/dnssrv/instancer.go: which records are usable, and what a failed lookup does to the cache.
use mathlib.Core.List.{Memᴰ}
use kit_go.Prelude.{
  ℕ, String, ◌≡◌, ◌≢◌, refl, ap, ◌∙◌, List, [], ◌∷◌, ◌++◌, map, none, some, All, arith,
}
use kit_go.Go.{Error}
use kit_go.Sd.Instance.{sorted}
use kit_go.Sd.Instance.Current.{last_received, sorted_error}
use kit_go.Sd.Instancer.{Round, notified, run, event_of}
use kit_go.Sd.Instancer.Current.{Runs, Quiet, run-notified}
use kit_go.Sd.Dnssrv.{Srv, Lookup, err_port_zero, join_all, resolve, new_instancer_detailed}

module _ (join : String → ℕ → String) where
  join_all-map :
      (addrs : List Srv)
      → All (λ addr. addr.port ≢ 0) addrs
      → join_all join addrs ≡ some (map (λ addr. join addr.target addr.port) addrs)
  unfolding join_all
  join_all-map [] h = refl
  join_all-map (addr ∷ addrs) (h, hs) = ground (arith, h, join_all-map addrs hs)

  join_all_zero :
      (before after : List Srv) (addr : Srv)
      → addr.port ≡ 0
      → join_all join (before ++ addr ∷ after) ≡ none
  unfolding join_all
  join_all_zero [] after addr h = ground (arith, h)
  join_all_zero (b ∷ before) after addr h = ground (arith, join_all_zero before after addr h)

  -- A lookup without an error yields the addresses in their order if no port is 0, and otherwise
  -- no instances and ErrPortZero.
  pub resolve_ports :
      (addrs before after : List Srv) (addr : Srv)
      → All (λ a. a.port ≢ 0) addrs
      → addr.port ≡ 0
      → (resolve join (record { addrs = addrs; err = none })
          ≡ record { instances = some (map (λ a. join a.target a.port) addrs); err = none })
        × (resolve join (record { addrs = before ++ addr ∷ after; err = none })
            ≡ record { instances = none; err = some err_port_zero })
  unfolding resolve
  resolve_ports addrs before after addr h z = (
    rw (join_all-map addrs h, resolve) refl,
    rw (join_all_zero before after addr z, resolve) refl,
  )

  event_of-failed :
      (lookup : Lookup) (err : Error)
      → lookup.err ≡ some err
      → sorted (event_of (resolve join lookup)) ≡ record { instances = none; err = some err }
  unfolding resolve event_of
  event_of-failed lookup err e = rw (e) (sorted_error err)

  -- A lookup that fails before the goroutine ends replaces the instances in the cache by its error,
  -- and this is what every observer that is registered in the end was last told.
  pub run_failed :
      (first lookup : Lookup) (before after : List (Round Lookup)) (err : Error) (ch : ℕ)
      → All (Runs (resolve join)) before
      → All (Quiet (resolve join)) after
      → lookup.err ≡ some err
      → let in' =
          run
            (resolve join)
            (before ++ notified lookup ∷ after)
            (new_instancer_detailed join first) in
        Memᴰ ch in'.cache.reg
        → (in'.cache.state ≡ record { instances = none; err = some err })
          × (last_received ch in'.cache.sent ≡ some (record { instances = none; err = some err }))
  unfolding new_instancer_detailed
  run_failed first lookup before after err ch runs quiet e m =
      let (state, told) = run-notified (resolve join) _ before after lookup ch runs quiet m in
      let failed = event_of-failed lookup err e in (state ∙ failed, told ∙ ap some failed)
