-- ===== src/Conn/Backoff.antt =====
-- The wait between two attempts to connect.
use kit_go.Prelude.{ℕ, ◌*◌, ◌≤◌, arith}
use kit_go.Conn.{minute, exponential}

-- A jitter of at least a half and below one and a half: rand.Float64() + 0.5.
abbrev pub IsJitter : (ℕ → ℕ) → Type 0
IsJitter scale = (d : ℕ) → (d ≤ scale (d * 2)) × (scale (d * 2) ≤ 3 * d)

-- Up to a minute, the next wait is at least the last one, at most three times as long, and at
-- most a minute.
pub exponential_bounds :
    (scale : ℕ → ℕ) (d : ℕ)
    → IsJitter scale
    → d ≤ minute
    → (d ≤ exponential scale d) × (exponential scale d ≤ 3 * d) × (exponential scale d ≤ minute)
unfolding exponential
exponential_bounds scale d j h = ground (arith, j d)
