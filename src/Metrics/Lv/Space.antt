-- ===== src/Metrics/Lv/Space.antt =====
-- metrics/internal/lv/space.go.
pub mod Series
pub mod Visited
pub mod Walk
use kit_go.Prelude.{
  ℕ, String, Bool, true, false, ◌&&◌, List, [], ◌∷◌, ◌++◌, Option, none, some, if◌then◌else◌,
  str_eq, str_eq_iff, ◌≡◌, ◌↔◌, arith, ap,
}
use kit_go.Prelude.Assoc.{string_eq, lookup, put}
use mathlib.Core.Option

pub record Pair : Type 0 where
  pub label : String
  pub value : String

unfoldable pub pair_eq : Pair → Pair → Bool
pair_eq a b = str_eq a.label b.label && str_eq a.value b.value

-- A node, with its children as a map from pairs to nodes.
mutual
  pub data Node (V : Type 0) : Type 0 where
    node : List V → Children V → Node V

  pub data Children (V : Type 0) : Type 0 where
    leaf : Children V
    child : Pair → Node V → Children V → Children V

module _ {V : Type 0} where
  abbrev pub observations : Node V → List V
  observations (node obs children) = obs

  abbrev pub children_of : Node V → Children V
  children_of (node obs children) = children

  abbrev pub empty_node : Node V
  empty_node = node [] leaf

  -- n.children[head]
  unfoldable pub child_at : Pair → Children V → Option (Node V)
  child_at p leaf = none
  child_at p (child q n rest) = if pair_eq q p then some n else child_at p rest

  -- n.children[head] = child
  unfoldable pub set_child : Pair → Node V → Children V → Children V
  set_child p n leaf = child p n leaf
  set_child p n (child q m rest) =
      if pair_eq q p then child p n rest else child q m (set_child p n rest)

  -- The child at a pair, made where it is missing.
  unfoldable pub child_or_new : Pair → Children V → Node V
  child_or_new p children = elim (child_at p children) [ none ↦ empty_node | some n ↦ n ]

  -- A panic ("too few LabelValues") is `none`. `at_end` makes the value to append from the
  -- observations of the series.
  unfoldable pub insert_at : (List V → V) → List String → Node V → Option (Node V)
  insert_at at_end [] n =
      some (node (observations n ++ at_end (observations n) ∷ []) (children_of n))
  insert_at at_end (label ∷ []) n = none
  insert_at at_end (label ∷ value ∷ tail) n =
      let head : Pair = record { label = label; value = value } in
      Option.map (λ c. node (observations n) (set_child head c (children_of n)))
        (insert_at at_end tail (child_or_new head (children_of n)))

  -- node.observe
  unfoldable pub observe_node : List String → V → Node V → Option (Node V)
  unfolding insert_at
  observe_node lvs value = insert_at (λ obs. value) lvs

  last_or : V → List V → V
  last_or d [] = d
  last_or d (x ∷ xs) = last_or x xs

  -- The value that node.add appends: the last one plus the delta, or the delta alone.
  unfoldable pub next_value : (V → V → V) → V → List V → V
  unfolding last_or
  next_value add delta [] = delta
  next_value add delta (x ∷ xs) = add (last_or x xs) delta

  -- node.add
  unfoldable pub add_node : (V → V → V) → List String → V → Node V → Option (Node V)
  unfolding insert_at
  add_node add lvs delta = insert_at (next_value add delta) lvs

pub record Space (V : Type 0) : Type 0 where
  pub nodes : List (String × Node V)

module _ {V : Type 0} where
  unfoldable pub new_space : Space V
  new_space = record { nodes = [] }

  -- Space.nodeFor, the node only: a missing one is made.
  unfoldable pub node_for : String → Space V → Node V
  node_for name s = elim (lookup name s.nodes) [ none ↦ empty_node | some n ↦ n ]

  unfoldable pub update_at : String → (Node V → Option (Node V)) → Space V → Option (Space V)
  update_at name f s = Option.map (λ n. record { nodes = put name n s.nodes }) (f (node_for name s))

  -- Space.Observe
  unfoldable pub observe : String → List String → V → Space V → Option (Space V)
  unfolding update_at
  observe name lvs value = update_at name (observe_node lvs value)

  -- Space.Add
  unfoldable pub add : (V → V → V) → String → List String → V → Space V → Option (Space V)
  unfolding update_at
  add plus name lvs delta = update_at name (add_node plus lvs delta)

  -- Space.Reset: the old contents, and the space that is left.
  unfoldable pub reset : Space V → Space V × Space V
  reset s = (s, new_space)
