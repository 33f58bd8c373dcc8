-- ===== src/Metrics/Ratemap.antt =====
-- metrics/internal/ratemap/ratemap.go: sample rates by name. Its lock is left out, since each
-- operation holds it while it works.
use kit_go.Prelude.{String, List, [], none, some}
use kit_go.Prelude.Assoc.{string_eq, lookup, put}

abbrev pub RateMap : Type 0 → Type 0
RateMap V = List (String × V)

unfoldable pub new_rate_map : {V : Type 0} → RateMap V
new_rate_map = []

module _ {V : Type 0} where
  -- RateMap.Set
  unfoldable pub set_rate : String → V → RateMap V → RateMap V
  set_rate = put

  -- RateMap.Get, over 1.0.
  unfoldable pub get_rate : V → String → RateMap V → V
  get_rate one name m = elim (lookup name m) [ none ↦ one | some f ↦ f ]
