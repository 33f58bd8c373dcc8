-- ===== src/Sd/Endpointer.antt =====
-- sd/endpointer.go: an endpoint cache fed by the channel that it registers with an instancer.
use mathlib.Core.List.{Memᴰ}
use kit_go.Prelude.{
  ℕ, String, ◌≡◌, ◌∙◌, ap, subst, true, false, List, [], ◌∷◌, map, Option, none, some, arith,
}
use kit_go.Prelude.Assoc.{string_eq, lookup}
use kit_go.Prelude.Order.{string_order}
use kit_go.Sd.{Event, Factory, elements}
use kit_go.Sd.Instance as Instance
use kit_go.Sd.Instance.Current as Current
use kit_go.Sd.Instance.Current.{last_or}
use kit_go.Sd.EndpointCache.{EndpointerOptions, EndpointCache, new_endpoint_cache, update}
use kit_go.Sd.EndpointCache.Distinct.{Absent}
use kit_go.Sd.EndpointCache.Survivors.{Follows, Follows-update}

-- An EndpointerOption changes the options that NewEndpointer starts from.
pub invalidate_on_error : ℕ → EndpointerOptions → EndpointerOptions
invalidate_on_error timeout opts = record opts {
  invalidate_on_error = true;
  invalidate_timeout = timeout;
}

apply_options : List (EndpointerOptions → EndpointerOptions) → EndpointerOptions → EndpointerOptions
apply_options [] opts = opts
apply_options (option ∷ options) opts = apply_options options (option opts)

module _ {E C : Type 0} where
  -- NewEndpointer, up to the registration of its channel.
  pub new_endpointer : List (EndpointerOptions → EndpointerOptions) → EndpointCache E C
  unfolding apply_options
  new_endpointer options =
      new_endpoint_cache
        (apply_options options (record { invalidate_on_error = false; invalidate_timeout = 0 }))

module _ {W E C : Type 0} where
  -- The goroutine `receive`, over the events that came through the channel, each with the time at
  -- which it is handled.
  pub receive : Factory W E C → List (ℕ × Event) → EndpointCache E C → W → EndpointCache E C × W
  receive factory [] c w = (c, w)
  receive factory ((now, event) ∷ events) c w =
      let (c', w') = update factory now event c w in receive factory events c' w'

module _ {W E C : Type 0} (factory : Factory W E C) where
  receive-Follows :
      (events : List (ℕ × Event)) (d : Option Event) (e : Event) (c : EndpointCache E C) (w : W)
      → e.err ≡ none
      → ((x : Event) → d ≡ some x → x.err ≡ none → Follows x c)
      → last_or d (map (λ p. p.1) events) ≡ some e
      → Follows e (receive factory events c w).0
  unfolding receive last_or
  receive-Follows [] d e c w ok before last = before e last ok
  receive-Follows ((now, event) ∷ events) d e c w ok before last =
      let (c', w') = update factory now event c w in
      receive-Follows events (some event) e c' w' ok (λ x p q. after x p q) last
    where
      after :
          (x : Event)
          → some event ≡ some x
          → x.err ≡ none
          → Follows x (update factory now event c w).0
      after x p q =
          let same : event ≡ x = cc in
          subst (λ y. Follows y (update factory now event c w).0) same
            (Follows-update factory now event c w (ground arith))

  -- The endpointer follows the instancer: after any history of an instance cache in which the
  -- channel is registered at the end, and once the goroutine has handled all that the channel was
  -- told, if the state is no error, the endpointer has no entry for an instance `i` outside that
  -- state and reports no error, whatever the times and the options.
  pub receive-follows_instancer :
      (calls : List Current.Call) (ch : ℕ) (events : List (ℕ × Event))
      (options : List (EndpointerOptions → EndpointerOptions)) (w : W) (i : String)
      → let instancer = Current.run calls Instance.new_cache in
        let c = (receive factory events (new_endpointer options) w).0 in
        Memᴰ ch instancer.reg
        → map (λ p. p.1) events ≡ Current.received ch instancer.sent
        → instancer.state.err ≡ none
        → Absent i (elements instancer.state.instances)
        → (c.err ≡ none) × (lookup i c.cache ≡ none)
  receive-follows_instancer calls ch events options w i m e ok a =
      let (calm, dropped) =
        receive-Follows events none (Current.run calls Instance.new_cache).state
          (new_endpointer options) w ok (λ x p q. cc)
          (ap (last_or none) e ∙ Current.last_received-run calls ch m) in
      (calm, dropped i a)
