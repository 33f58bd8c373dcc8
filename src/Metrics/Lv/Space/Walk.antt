-- ===== src/Metrics/Lv/Space/Walk.antt =====
-- Space.Walk of metrics/internal/lv/space.go. The function that is called for each series is a
-- call with effects that answers whether to go on. Go walks a map in any order; here it is the
-- order of the list.
use kit_go.Prelude.{String, Bool, true, false, List, [], ◌∷◌, ◌++◌, is_empty, if◌then◌else◌}
use kit_go.Go.{Act}
use kit_go.Metrics.Lv.Space.{Space, Node, node, Children, leaf, child}

module _ {W V : Type 0} where
  unfoldable mutual
    -- node.walk
    pub walk_node : (List String → List V → Act W Bool) → List String → Node V → Act W Bool
    walk_node fn lvs (node observations children) w =
        let (go_on, w') = if is_empty observations then (true, w) else fn lvs observations w in
        let rest = walk_children fn lvs children w' in if go_on then rest else (false, w')

    pub walk_children : (List String → List V → Act W Bool) → List String → Children V → Act W Bool
    walk_children fn lvs leaf w = (true, w)
    walk_children fn lvs (child p c children) w =
        let (go_on, w') = walk_node fn (lvs ++ p.label ∷ p.value ∷ []) c w in
        let rest = walk_children fn lvs children w' in if go_on then rest else (false, w')

  unfoldable pub walk_nodes :
      (String → List String → List V → Act W Bool) → List (String × Node V) → W → W
  walk_nodes fn [] w = w
  walk_nodes fn ((name, n) ∷ nodes) w =
      let (go_on, w') = walk_node (fn name) [] n w in
      let rest = walk_nodes fn nodes w' in if go_on then rest else w'

  -- Space.Walk
  unfoldable pub walk : (String → List String → List V → Act W Bool) → Space V → W → W
  unfolding walk_nodes
  walk fn s w = walk_nodes fn s.nodes w
