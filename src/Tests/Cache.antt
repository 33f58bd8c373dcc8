-- ===== src/Tests/Cache.antt =====
-- sd/endpoint_cache.go, sd/internal/instance/cache.go and sd/endpointer.go on small inputs.
use mathlib.Core.List.{Memᴰ}
use mathlib.Core.List.Memᴰ.{head}
use mathlib.Core.List.Permᴰ.{swap}
use mathlib.Core.Bool.{false≢true}
use kit_go.Prelude.{
  str_eq_iff, ◌≢◌, subst, sym, ℕ, ◌+◌, ◌≡◌, refl, String, true, false, List, [], ◌∷◌, ◌++◌, Option,
  none, some, arith, ltb, if◌then◌else◌, map,
}
use kit_go.Prelude.Assoc.{string_eq, lookup, delete}
use kit_go.Prelude.Tally.{tally}
use kit_go.Go.{Error, errors_new}
use kit_go.Sd.{Event, Factory, elements}
use kit_go.Sd.EndpointCache.{
  EndpointerOptions, EndpointCloser, EndpointCache, new_endpoint_cache, closers, update,
  endpoints_shared, endpoints_exclusive,
}
use kit_go.Sd.EndpointCache.Distinct.{Absent}
use kit_go.Sd.EndpointCache.Survivors.{healthy, replaced, update_perm, duplicate_leaks}
use kit_go.Sd.EndpointCache.Expiry.{failing, fail_all, first_error_wins, expiry}
use kit_go.Sd.EndpointCache.History.{Call, updates, asks, run, obtained_run, closers_conserved}
use kit_go.Prelude.Sort.{sort, insert}
use kit_go.Sd.Instance.Equal.{deep_equal, equal_instances, equal_errors, equal_lists}
use kit_go.Sd.Instance as Instance
use kit_go.Sd.Instance.Current as Current
use kit_go.Sd.Instance.Current.{last_received-run, update_same_instances}
use kit_go.Sd.Endpointer.{invalidate_on_error, new_endpointer, receive, receive-follows_instancer}

-- A factory that counts its calls.
abbrev maker : Factory ℕ String String
maker i w = (record { service = i; closer = some i; err = none }, w + 1)

abbrev invalidating : EndpointerOptions
invalidating = record { invalidate_on_error = true; invalidate_timeout = 10 }

abbrev lasting : EndpointerOptions
lasting = record { invalidate_on_error = false; invalidate_timeout = 0 }

abbrev held : EndpointCloser String String
held = record { endpoint = "a"; closer = some "a" }

abbrev holding : EndpointerOptions → Option Error → EndpointCache String String
holding options err = record {
  options = options;
  cache = ("a", held) ∷ [];
  err = err;
  endpoints = "a" ∷ [];
  invalidate_deadline = 20;
  closed = [];
}

abbrev oops : Error
oops = errors_new "oops"

a≢b : ◌≢◌ {A = String} "a" "b"
a≢b e = false≢true ((str_eq_iff "a" "b").1 e)

abbrev two_instances : List String
two_instances = "b" ∷ "a" ∷ []

abbrev history : List Call
history = updates 1 (healthy two_instances) ∷ updates 2 (failing oops) ∷ asks 30 ∷ []

found : lookup "a" (holding lasting none).cache ≡ some held
unfolding lookup
found = refl

closers_conserved_example :
    let c = (run maker history (new_endpoint_cache invalidating) 0).0 in
    tally (λ i. 1) c.closed + tally (λ i. 1) (closers c.cache)
    ≡ obtained_run maker (λ i. 1) history (new_endpoint_cache invalidating) 0
closers_conserved_example =
    closers_conserved maker (λ i. 1) invalidating history 0 (((a≢b, tt), (tt, tt)), (tt, (tt, tt)))

update_perm_example :
    update maker 1 (healthy ("a" ∷ "b" ∷ [])) (holding lasting none) 0
    ≡ update maker 1 (healthy ("b" ∷ "a" ∷ [])) (holding lasting none) 0
update_perm_example =
    update_perm maker 1 ("a" ∷ "b" ∷ []) ("b" ∷ "a" ∷ []) (holding lasting none) 0 (swap refl refl)

-- A cache with two older entries.
abbrev stale : String → EndpointCloser String String
stale closer = record { endpoint = "old"; closer = some closer }

abbrev two_held : EndpointCache String String
two_held = record (holding lasting none) {
  cache = ("a", stale "first") ∷ ("b", stale "second") ∷ [];
}

found_stale : lookup "a" two_held.cache ≡ some (stale "first")
unfolding lookup
found_stale = refl

duplicate_leaks_example :
    let c' = (update maker 1 (healthy ("a" ∷ "a" ∷ [])) two_held 0).0 in
    ((update maker 1 (healthy ("a" ∷ "a" ∷ [])) two_held 0).1 ≡ 1)
    × (c'.cache ≡ ("a", held) ∷ [])
    × (c'.endpoints ≡ "a" ∷ "a" ∷ [])
    × (c'.closed ≡ "second" ∷ [])
unfolding replaced delete closers
duplicate_leaks_example = duplicate_leaks maker 1 "a" (stale "first") two_held 0 found_stale

first_error_wins_example :
    let c' =
      (fail_all maker ((1, oops) ∷ (2, errors_new "later") ∷ []) (holding invalidating none) 0).0 in
    let in_time = ltb 11 (1 + 10) in
    (endpoints_shared 11 c'
      ≡ (if in_time then some (record { endpoints = "a" ∷ []; err = none }) else none))
    × ((endpoints_exclusive maker 11 c' 0).answer ≡ (
        if in_time
        then record { endpoints = "a" ∷ []; err = none }
        else record { endpoints = []; err = some oops }))
first_error_wins_example =
    first_error_wins maker 1 11 oops ((2, errors_new "later") ∷ []) (holding invalidating none) 0
      refl refl

expiry_example :
    let r = endpoints_exclusive maker 20 (holding invalidating (some oops)) 0 in
    (r.after.cache ≡ [])
    × (r.after.endpoints ≡ [])
    × (r.after.closed ≡ [] ++ closers (("a", held) ∷ []))
    × (r.world ≡ 0)
    × (endpoints_exclusive maker 21 r.after 0 ≡ r)
expiry_example =
    expiry maker 20 21 oops (holding invalidating (some oops)) 0 refl (omega arith) (omega arith)

abbrev one_update : List Current.Call
one_update = Current.registers 7 ∷ Current.updates (healthy ("a" ∷ [])) ∷ []

listening : Memᴰ 7 (Current.run one_update Instance.new_cache).reg
unfolding Current.run Current.step Instance.register Instance.update Instance.add Instance.contains
    Instance.new_cache Instance.sort_instances deep_equal equal_instances equal_errors equal_lists
listening = head refl

last_received-run_example :
    Current.last_received 7 (Current.run one_update Instance.new_cache).sent
    ≡ some (Current.run one_update Instance.new_cache).state
last_received-run_example = last_received-run one_update 7 listening

handled : List (ℕ × Event)
unfolding Instance.new_cache
handled = (1, record { instances = none; err = none }) ∷ (2, healthy ("a" ∷ [])) ∷ []

all_handled :
    map (λ p. p.1) handled ≡ Current.received 7 (Current.run one_update Instance.new_cache).sent
unfolding handled Current.received Current.run Current.step Instance.register Instance.update
    Instance.add Instance.contains Instance.new_cache Instance.sort_instances Instance.broadcast
    sort insert deep_equal equal_instances equal_errors equal_lists
all_handled = refl

state_of_one_update : (Current.run one_update Instance.new_cache).state ≡ healthy ("a" ∷ [])
unfolding Current.run Current.step Instance.register Instance.update Instance.add Instance.contains
    Instance.new_cache Instance.sort_instances sort insert deep_equal equal_instances equal_errors
    equal_lists
state_of_one_update = refl

receive-follows_instancer_example :
    let c = (receive maker handled (new_endpointer (invalidate_on_error 5 ∷ [])) 0).0 in
    (c.err ≡ none) × (lookup "b" c.cache ≡ none)
receive-follows_instancer_example =
    receive-follows_instancer maker one_update 7 handled (invalidate_on_error 5 ∷ []) 0 "b"
      listening all_handled (rw state_of_one_update refl)
      (subst (λ e. Absent "b" (elements e.instances)) (sym state_of_one_update) (a≢b, tt))
