-- ===== src/Tests/Discovery.antt =====
-- The instancers and registrars of sd on small inputs.
use mathlib.Core.List.{Memᴰ}
use mathlib.Core.List.Memᴰ.{head}
use mathlib.Core.Bool.{false≢true}
use kit_go.Prelude.{
  ℕ, suc, ◌+◌, ◌≡◌, refl, map, str_eq_iff, arith, String, true, false, List, [], ◌∷◌, none, some,
}
use kit_go.Prelude.Assoc.{string_eq, lookup}
use kit_go.Prelude.Order.{string_order}
use kit_go.Prelude.Sort.{sort, insert}
use kit_go.Sd.{Event, Factory}
use kit_go.Sd.EndpointCache.Distinct.{Absent}
use kit_go.Sd.Endpointer.{receive, new_endpointer}
use kit_go.Sd.Instancer.Endpoints.{receive-follows_lookup}
use kit_go.Sd.Instance.{
  sorted, new_cache, update, register, add, contains, sort_instances, broadcast,
}
use kit_go.Sd.Instance.Equal.{deep_equal, equal_instances, equal_errors, equal_lists}
use kit_go.Sd.Instance.Current.{received, last_received}
use kit_go.Sd.Instancer.{Fetched, Round, notified, registers, run, started, event_of, step, handle}
use kit_go.Sd.Instancer.Current.{run-notified}
use kit_go.Sd.Consul.{ServiceEntry, Instancer, found, round, ten_milliseconds}
use kit_go.Sd.Consul.Index.{round_goes_back}
use kit_go.Sd.Etcd.Registrar as Etcd
use kit_go.Sd.Etcd.Registrar.{Steps}
use kit_go.Sd.Etcd.Registrar.Stuck.{second_register_locks}
use kit_go.Sd.Eureka.Registrar.{Connection, registers as registers_instance, deregisters, ticks}
use kit_go.Sd.Eureka.Registrar as Eureka
use kit_go.Sd.Eureka.Registrar.Balanced.{Counts, one_if, run_balanced}

abbrev nothing : Event
nothing = record { instances = none; err = none }

abbrev listed : Fetched
listed = record { instances = some ("a" ∷ []); err = none }

abbrev rounds : List (Round Fetched)
rounds = registers 4 ∷ notified listed ∷ []

observed : Memᴰ 4 (run (λ f. f) rounds (started nothing)).cache.reg
unfolding run step handle started event_of update register add contains new_cache sort_instances
    deep_equal equal_instances equal_errors equal_lists
observed = head refl

run-notified_example :
    ((run (λ f. f) rounds (started nothing)).cache.state ≡ sorted (event_of listed))
    × (last_received 4 (run (λ f. f) rounds (started nothing)).cache.sent
        ≡ some (sorted (event_of listed)))
run-notified_example =
    run-notified (λ f. f) nothing (registers 4 ∷ []) [] listed 4 (tt, tt) tt observed

abbrev handled : List (ℕ × Event)
handled = (1, nothing) ∷ (2, record { instances = some ("a" ∷ []); err = none }) ∷ []

all_handled : map (λ p. p.1) handled ≡ received 4 (run (λ f. f) rounds (started nothing)).cache.sent
unfolding run step handle started event_of update register add contains new_cache sort_instances
    deep_equal equal_instances equal_errors equal_lists received broadcast sort insert
all_handled = refl

abbrev factory : Factory ℕ String ℕ
factory i w = (record { service = i; closer = none; err = none }, suc w)

c-Absent : Absent {A = String} "c" ("a" ∷ [])
c-Absent = (λ e. false≢true ((str_eq_iff "a" "c").1 e), tt)

receive-follows_lookup_example :
    let c = (receive factory handled (new_endpointer []) 0).0 in
    (c.err ≡ none) × (lookup "c" c.cache ≡ none)
receive-follows_lookup_example =
    receive-follows_lookup (λ f. f) factory nothing (registers 4 ∷ []) [] listed 4 handled [] 0 "c"
      (tt, tt) tt observed all_handled refl c-Absent

abbrev entry : ServiceEntry
entry = record { node_address = "n"; service_address = ""; tags = "blue" ∷ "v2" ∷ []; port = 80 }

abbrev instancer : Instancer
instancer = record { cache = new_cache; last_index = 9; d = 7; running = true }

round_goes_back_example :
    ((round (λ n. n) (found ("a" ∷ []) 4) instancer).cache ≡ new_cache)
    × ((round
          (λ n. n)
          (found ("b" ∷ []) 2)
          (round (λ n. n) (found ("a" ∷ []) 4) instancer)).cache.state
        ≡ sorted (record { instances = some ("b" ∷ []); err = none }))
    × ((round
          (λ n. n)
          (found ("b" ∷ []) 2)
          (round (λ n. n) (found ("a" ∷ []) 4) instancer)).last_index
        ≡ 2)
    × ((round (λ n. n) (found ("b" ∷ []) 2) (round (λ n. n) (found ("a" ∷ []) 4) instancer)).d
        ≡ ten_milliseconds)
round_goes_back_example =
    round_goes_back (λ n. n) instancer ("a" ∷ []) ("b" ∷ []) 4 2 (omega arith) (omega arith)
      (omega arith)

abbrev looping : Etcd.Registrar
looping = record {
  locked = false;
  quit = some 0;
  made = 1;
  closed = [];
  loops = Etcd.Phase.running ∷ [];
}

second_register_locks_example :
    (s : Etcd.Registrar) × Steps looping s
    × ((t : Etcd.Registrar) → Steps s t → (t.locked ≡ true) × (t.closed ≡ []) × (t.quit ≡ some 0))
second_register_locks_example = second_register_locks looping 0 refl refl

-- The outside counts registrations and deregistrations.
abbrev connection : Connection (ℕ × ℕ)
connection = record {
  register_instance = λ w. (none, (suc w.0, w.1));
  deregister_instance = λ w. (none, (w.0, suc w.1));
  reregister_instance = λ w. (none, w);
  heart_beat_instance = λ w. (none, w);
}

abbrev counts : Counts connection
counts = record {
  registered = λ w. w.0;
  deregistered = λ w. w.1;
  registered-register = λ w. refl;
  registered-deregister = λ w. refl;
  registered-reregister = λ w. refl;
  registered-heart_beat = λ w. refl;
  deregistered-register = λ w. refl;
  deregistered-deregister = λ w. refl;
  deregistered-reregister = λ w. refl;
  deregistered-heart_beat = λ w. refl;
}

abbrev calls : List Eureka.Call
calls = registers_instance ∷ ticks ∷ registers_instance ∷ deregisters ∷ registers_instance ∷ []

run_balanced_example :
    (Eureka.run connection (λ err. some 404) calls (false, (0, 0))).1.0
    ≡ one_if (Eureka.run connection (λ err. some 404) calls (false, (0, 0))).0
      + (Eureka.run connection (λ err. some 404) calls (false, (0, 0))).1.1
run_balanced_example =
    run_balanced connection (λ err. some 404) counts calls (false, (0, 0)) (omega arith)
