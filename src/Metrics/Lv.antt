-- ===== src/Metrics/Lv.antt =====
-- metrics/internal/lv: label values, and time series by name and label values. `V` stands for
-- float64 and `add` for its addition.
pub mod Alias
pub mod Space
use kit_go.Prelude.{ℕ, ◌%◌, String, Bool, List, [], ◌∷◌, ◌++◌, length, ◌==◌, if◌then◌else◌}

-- LabelValues.With of labelvalues.go, as far as the values go.
pub with_values : List String → List String → List String
with_values lvs label_values =
    lvs ++ (if length label_values % 2 == 0 then label_values else label_values ++ "unknown" ∷ [])
