-- ===== src/Sd/Instance.antt =====
-- sd/internal/instance/cache.go: the instances last reported, and the channels that are told.
-- A channel is a number; the events sent are kept in `sent`, in their order. The registry is a
-- map that Go walks in any order: here it is a list of channels without repetition.
pub mod Equal
pub mod Current
use kit_go.Prelude.{
  ℕ, String, Bool, true, false, ◌==◌, ◌||◌, List, [], ◌∷◌, ◌++◌, map, Option, none, some,
  if◌then◌else◌,
}
use kit_go.Prelude.Order.{string_order}
use kit_go.Prelude.Sort.{sort}
use kit_go.Sd.{Event}
use Equal.{deep_equal}

pub record Cache : Type 0 where
  pub state : Event
  pub reg : List ℕ
  pub sent : List (ℕ × Event)

-- sort.Strings(event.Instances), which keeps nil
unfoldable pub sort_instances : Option (List String) → Option (List String)
sort_instances none = none
sort_instances (some l) = some (sort l)

abbrev pub sorted : Event → Event
unfolding sort_instances
sorted event = record event { instances = sort_instances event.instances }

unfoldable pub new_cache : Cache
new_cache = record { state = record { instances = none; err = none }; reg = []; sent = [] }

-- registry.broadcast
unfoldable pub broadcast : List ℕ → Event → List (ℕ × Event)
broadcast reg event = map (λ ch. (ch, event)) reg

unfoldable pub contains : ℕ → List ℕ → Bool
contains ch [] = false
contains ch (c ∷ reg) = c == ch || contains ch reg

-- registry.register and registry.deregister
unfoldable pub add : ℕ → List ℕ → List ℕ
unfolding contains
add ch reg = if contains ch reg then reg else ch ∷ reg

unfoldable pub remove : ℕ → List ℕ → List ℕ
remove ch [] = []
remove ch (c ∷ reg) = let rest = remove ch reg in if c == ch then rest else c ∷ rest

unfoldable pub update : Event → Cache → Cache
update event c =
    if deep_equal c.state (sorted event)
    then c
    else record c { state = sorted event; sent = c.sent ++ broadcast c.reg (sorted event) }

unfoldable pub register : ℕ → Cache → Cache
register ch c = record c { reg = add ch c.reg; sent = c.sent ++ (ch, c.state) ∷ [] }

unfoldable pub deregister : ℕ → Cache → Cache
deregister ch c = record c { reg = remove ch c.reg }

-- copyEvent makes another slice of the same instances, and keeps nil.
pub copy_event : Event → Event
copy_event e = elim e.instances [
  | none ↦ e
  | some instances ↦ record e { instances = some instances }
]

-- Cache.State
pub get_state : Cache → Event
unfolding copy_event
get_state c = copy_event c.state
