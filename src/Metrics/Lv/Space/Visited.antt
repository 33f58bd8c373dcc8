-- ===== src/Metrics/Lv/Space/Visited.antt =====
-- metrics/internal/lv/space.go: Walk visits the series that have observations, one after another,
-- until its function says to stop.
use kit_go.Prelude.{
  String, Bool, true, false, ◌≡◌, refl, List, [], ◌∷◌, ◌++◌, is_empty, arith, if◌then◌else◌,
}
use kit_go.Go.{Act}
use kit_go.Metrics.Lv.Space.{Space, Node, node, Children, leaf, child}
use kit_go.Metrics.Lv.Space.Walk.{walk_node, walk_children, walk_nodes, walk}

-- A series: its label values and its observations.
pub record Visit (V : Type 0) : Type 0 where
  pub name : String
  pub lvs : List String
  pub values : List V

module _ {V : Type 0} where
  unfoldable pub here : String → List String → List V → List (Visit V)
  here name lvs values =
      if is_empty values then [] else record { name = name; lvs = lvs; values = values } ∷ []

  unfoldable mutual
    unfolding here

    pub node_visits : String → List String → Node V → List (Visit V)
    node_visits name lvs (node values children) =
        here name lvs values ++ children_visits name lvs children

    pub children_visits : String → List String → Children V → List (Visit V)
    children_visits name lvs leaf = []
    children_visits name lvs (child p c children) =
        node_visits name (lvs ++ p.label ∷ p.value ∷ []) c ++ children_visits name lvs children

  unfoldable pub nodes_visits : List (String × Node V) → List (Visit V)
  unfolding node_visits
  nodes_visits [] = []
  nodes_visits ((name, n) ∷ nodes) = node_visits name [] n ++ nodes_visits nodes

  -- The series of a space that have observations.
  unfoldable pub visits : Space V → List (Visit V)
  unfolding nodes_visits
  visits s = nodes_visits s.nodes

module _ {W V : Type 0} (fn : String → List String → List V → Act W Bool) where
  -- The function on one series after another, until it says to stop.
  unfoldable pub visit_all : List (Visit V) → Act W Bool
  visit_all [] w = (true, w)
  visit_all (v ∷ vs) w =
      let (go_on, w') = fn v.name v.lvs v.values w in
      let rest = visit_all vs w' in if go_on then rest else (false, w')

  visit_all-append :
      (xs ys : List (Visit V)) (w : W)
      → visit_all (xs ++ ys) w
        ≡ (let (go_on, w') = visit_all xs w in if go_on then visit_all ys w' else (false, w'))
  unfolding visit_all
  visit_all-append [] ys w = refl
  visit_all-append (x ∷ xs) ys w =
      let (go_on, w') = fn x.name x.lvs x.values w in ground (arith, visit_all-append xs ys w')

  visit_all-here :
      (name : String) (lvs : List String) (values : List V) (w : W)
      → visit_all (here name lvs values) w
        ≡ (if is_empty values then (true, w) else fn name lvs values w)
  unfolding visit_all here
  visit_all-here name lvs [] w = refl
  visit_all-here name lvs (v ∷ vs) w = ground arith

  mutual
    unfolding node_visits walk_node visit_all

    walk_node-visits :
        (name : String) (lvs : List String) (n : Node V) (w : W)
        → walk_node (fn name) lvs n w ≡ visit_all (node_visits name lvs n) w
    walk_node-visits name lvs (node values children) w =
        let (go_on, w') = if is_empty values then (true, w) else fn name lvs values w in
        ground (
          arith,
          visit_all-append (here name lvs values) (children_visits name lvs children) w,
          visit_all-here name lvs values w,
          walk_children-visits name lvs children w',
        )

    walk_children-visits :
        (name : String) (lvs : List String) (children : Children V) (w : W)
        → walk_children (fn name) lvs children w ≡ visit_all (children_visits name lvs children) w
    walk_children-visits name lvs leaf w = refl
    walk_children-visits name lvs (child p c children) w =
        let lvs' = lvs ++ p.label ∷ p.value ∷ [] in
        let (go_on, w') = walk_node (fn name) lvs' c w in
        ground (
          arith,
          visit_all-append (node_visits name lvs' c) (children_visits name lvs children) w,
          walk_node-visits name lvs' c w,
          walk_children-visits name lvs children w',
        )

  walk_nodes-visits :
      (nodes : List (String × Node V)) (w : W)
      → walk_nodes fn nodes w ≡ (visit_all (nodes_visits nodes) w).1
  unfolding walk_nodes nodes_visits visit_all
  walk_nodes-visits [] w = refl
  walk_nodes-visits ((name, n) ∷ nodes) w =
      let (go_on, w') = walk_node (fn name) [] n w in
      ground (
        arith,
        visit_all-append (node_visits name [] n) (nodes_visits nodes) w,
        walk_node-visits name [] n w,
        walk_nodes-visits nodes w',
      )

  -- Walk calls its function on the series with observations, one after another, until it says to
  -- stop.
  pub walk-visits : (s : Space V) (w : W) → walk fn s w ≡ (visit_all (visits s) w).1
  unfolding walk visits
  walk-visits s w = walk_nodes-visits s.nodes w
