-- ===== src/Sd/Consul.antt =====
-- sd/consul/instancer.go. `print` prints an int with the verb %d, and `scale` is the jitter of
-- conn.Exponential. What the client's Service answers, before Stop interrupts the wait for it, is
-- given; that a wait is interrupted is the answer `interrupted`. Durations are nanoseconds.
pub mod Tags
pub mod Index
use Prim.Native.String.{◌++◌ as str_append}
use mathlib.Core.Bool.{not}
use kit_go.Prelude.{
  ℕ, ◌==◌, ltb, String, str_eq, Bool, true, false, ◌&&◌, ◌||◌, List, [], ◌∷◌, map, Option, none,
  some, if◌then◌else◌,
}
use kit_go.Go.{Error}
use kit_go.Conn.{exponential}
use kit_go.Sd.{Event}
use kit_go.Sd.Instance as Instance
use kit_go.Sd.Instance.{Cache, new_cache}

-- The fields of consul.ServiceEntry that are used.
pub record ServiceEntry : Type 0 where
  pub node_address : String
  pub service_address : String
  pub tags : List String
  pub port : ℕ

-- `_, ok := ts[tag]`, where `ts` is the set of the tags of an entry.
has_tag : String → List String → Bool
has_tag tag [] = false
has_tag tag (t ∷ ts) = str_eq t tag || has_tag tag ts

-- The inner loop of filterEntries, which is left at the first tag that is missing.
has_tags : List String → List String → Bool
unfolding has_tag
has_tags [] ts = true
has_tags (tag ∷ tags) ts = has_tag tag ts && has_tags tags ts

pub filter_entries : List ServiceEntry → List String → List ServiceEntry
unfolding has_tags
filter_entries [] tags = []
filter_entries (entry ∷ entries) tags =
    let rest = filter_entries entries tags in
    if has_tags tags entry.tags then entry ∷ rest else rest

module _ (print : ℕ → String) where
  make_instance : ServiceEntry → String
  make_instance entry =
      let addr =
        if not (str_eq entry.service_address "")
        then entry.service_address
        else entry.node_address in
      str_append addr (str_append ":" (print entry.port))

  pub make_instances : List ServiceEntry → List String
  unfolding make_instance
  make_instances = map make_instance

-- The tag that the query names.
pub query_tag : List String → String
query_tag [] = ""
query_tag (tag ∷ tags) = tag

-- What getInstances waits for.
pub data Answer : Type 0 where
  interrupted : Answer
  refused : Error → Answer
  answered : List ServiceEntry → ℕ → Answer

-- What getInstances returns: errStopped, another error, or instances and the index.
pub data Outcome : Type 0 where
  stopped : Outcome
  failed : Error → Outcome
  found : List String → ℕ → Outcome

module _ (print : ℕ → String) (tags : List String) where
  pub get_instances : Answer → Outcome
  unfolding filter_entries make_instances
  get_instances interrupted = stopped
  get_instances (refused err) = failed err
  get_instances (answered entries index) = elim tags [
    | [] ↦ found (make_instances print entries) index
    | tag ∷ rest ↦ found (make_instances print (filter_entries entries rest)) index
  ]

-- 10 * time.Millisecond
abbrev pub ten_milliseconds : ℕ
ten_milliseconds = 10_000_000

abbrev pub default_index : ℕ
default_index = 0

-- The cache, and the variables lastIndex and d of the loop, which runs or has returned.
pub record Instancer : Type 0 where
  pub cache : Cache
  pub last_index : ℕ
  pub d : ℕ
  pub running : Bool

pub publish : Event → Instancer → Instancer
publish event s = record s { cache = Instance.update event s.cache }

module _ (scale : ℕ → ℕ) where
  -- time.Sleep(d) and d = conn.Exponential(d)
  pub back_off : Instancer → Instancer
  back_off s = record s { d = exponential scale s.d }

  -- A round of the loop, on what getInstances returned.
  pub round : Outcome → Instancer → Instancer
  unfolding publish back_off
  round stopped s = record s { running = false }
  round (failed err) s = publish (record { instances = none; err = some err }) (back_off s)
  round (found instances index) s =
      if index == default_index
      then back_off s
      else if ltb index s.last_index
      then back_off (record s { last_index = default_index })
      else publish (record { instances = some instances; err = none })
          (record s { last_index = index; d = ten_milliseconds })

  -- The loop, on what its calls of getInstances return.
  pub loop : List Outcome → Instancer → Instancer
  unfolding round
  loop [] s = s
  loop (outcome ∷ outcomes) s = if s.running then loop outcomes (round outcome s) else s

-- The loop before its first round.
new_loop : Event → ℕ → Instancer
new_loop event index = record {
  cache = Instance.update event new_cache;
  last_index = index;
  d = ten_milliseconds;
  running = true;
}

-- NewInstancer, on what its call of getInstances returned.
pub new_instancer : Outcome → Option Instancer
unfolding new_loop
new_instancer stopped = none
new_instancer (failed err) = some (new_loop (record { instances = none; err = some err }) 0)
new_instancer (found instances index) =
    some (new_loop (record { instances = some instances; err = none }) index)
