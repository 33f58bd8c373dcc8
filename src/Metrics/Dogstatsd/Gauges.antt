-- ===== src/Metrics/Dogstatsd/Gauges.antt =====
-- metrics/dogstatsd/dogstatsd.go: the gauges, as a tree. A pointer to a gauge is its place there: the
-- name of the root and the label values. Go walks the map of children in any order; here it is the
-- order of the list.
use kit_go.Prelude.{String, Bool, true, false, List, [], ◌∷◌, Option, none, some, if◌then◌else◌}
use kit_go.Go.{Act}
use kit_go.Metrics.Lv.Space.{Pair, pair_eq}
use mathlib.Core.Option

-- Gauge, with its generic gauge and the flag that touch sets.
pub record Gauge (V : Type 0) : Type 0 where
  pub name : String
  pub lvs : List String
  pub value : V
  pub set : Bool

mutual
  -- gaugeNode
  pub data GaugeNode (V : Type 0) : Type 0 where
    gauge_node : Option (Gauge V) → GaugeChildren V → GaugeNode V

  pub data GaugeChildren (V : Type 0) : Type 0 where
    no_gauges : GaugeChildren V
    gauge_child : Pair → GaugeNode V → GaugeChildren V → GaugeChildren V

module _ {V : Type 0} where
  -- n.children[head], made where it is missing.
  child_of : Pair → GaugeChildren V → GaugeNode V
  child_of p no_gauges = gauge_node none no_gauges
  child_of p (gauge_child q n rest) = if pair_eq q p then n else child_of p rest

  put_child : Pair → GaugeNode V → GaugeChildren V → GaugeChildren V
  put_child p n no_gauges = gauge_child p n no_gauges
  put_child p n (gauge_child q m rest) =
      if pair_eq q p then gauge_child p n rest else gauge_child q m (put_child p n rest)

  -- gaugeNode.addGauge: the tree that is left. The gauge that is returned is the one at the place. A
  -- panic ("too few LabelValues") is `none`.
  pub add_gauge : Gauge V → List String → GaugeNode V → Option (GaugeNode V)
  unfolding child_of put_child
  add_gauge g [] (gauge_node none children) = some (gauge_node (some g) children)
  add_gauge g [] (gauge_node (some h) children) = some (gauge_node (some h) children)
  add_gauge g (label ∷ []) n = none
  add_gauge g (label ∷ value ∷ tail) (gauge_node h children) =
      let head : Pair = record { label = label; value = value } in
      Option.map (λ n. gauge_node h (put_child head n children))
        (add_gauge g tail (child_of head children))

  -- Gauge.touch, and Set and Add with it.
  touch : Gauge V → Gauge V
  touch g = record g { set = true }

  pub set_gauge : V → Gauge V → Gauge V
  unfolding touch
  set_gauge value g = touch (record g { value = value })

  pub add_to_gauge : (V → V → V) → V → Gauge V → Gauge V
  unfolding touch
  add_to_gauge add delta g = touch (record g { value = add g.value delta })

  -- Gauge.read, which clears the flag.
  unfoldable pub read : Gauge V → (V × Bool) × Gauge V
  read g = ((g.value, g.set), record g { set = false })

-- What a walk returns, and the tree that it leaves.
pub record Walked (T W : Type 0) : Type 0 where
  pub go_on : Bool
  pub tree : T
  pub outside : W

module _ {W V : Type 0} (fn : String → List String → V → Act W Bool) where
  -- The gauge of a node.
  unfoldable pub visit : Option (Gauge V) → W → Walked (Option (Gauge V)) W
  unfolding read
  visit none w = record { go_on = true; tree = none; outside = w }
  visit (some g) w =
      let (value, ok) = (read g).0 in
      let (go_on, w') = if ok then fn g.name g.lvs value w else (true, w) in
      record { go_on = go_on; tree = some (read g).1; outside = w' }

  unfoldable mutual
    unfolding visit

    -- gaugeNode.walk
    pub walk_gauges : GaugeNode V → W → Walked (GaugeNode V) W
    walk_gauges (gauge_node g children) w =
        let own = visit g w in
        let rest = walk_gauge_children children own.outside in
        if own.go_on
        then record {
          go_on = rest.go_on;
          tree = gauge_node own.tree rest.tree;
          outside = rest.outside;
        }
        else record { go_on = false; tree = gauge_node own.tree children; outside = own.outside }

    pub walk_gauge_children : GaugeChildren V → W → Walked (GaugeChildren V) W
    walk_gauge_children no_gauges w = record { go_on = true; tree = no_gauges; outside = w }
    walk_gauge_children (gauge_child p n children) w =
        let own = walk_gauges n w in
        let rest = walk_gauge_children children own.outside in
        if own.go_on
        then record {
          go_on = rest.go_on;
          tree = gauge_child p own.tree rest.tree;
          outside = rest.outside;
        }
        else record { go_on = false; tree = gauge_child p own.tree children; outside = own.outside }

  -- The loop of WriteTo over the roots, which goes on whatever a walk returns.
  unfoldable pub walk_roots : List (String × GaugeNode V) → W → List (String × GaugeNode V) × W
  unfolding walk_gauges
  walk_roots [] w = ([], w)
  walk_roots ((name, n) ∷ roots) w =
      let own = walk_gauges n w in
      let (roots', w') = walk_roots roots own.outside in ((name, own.tree) ∷ roots', w')
