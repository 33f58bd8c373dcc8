-- ===== src/Conn/Steps.antt =====
-- One turn of the loop, or of a goroutine that dials.
use kit_go.Prelude.{ℕ, ◌<◌, ◌≡◌, List, Option, none, some}
use kit_go.Go.{Error}
use kit_go.Sd.EndpointCache.Distinct.{Absent}
use kit_go.Conn.{Manager, on_reconnect, on_dialed, on_conn, on_put}
use kit_go.Conn.Backoff.{IsJitter}

-- The dialer makes new connections: none that was closed.
abbrev pub IsNew : Option ℕ → List ℕ → Type 0
IsNew none closed = Unit
IsNew (some c) closed = Absent c closed

-- A Take changes nothing in the loop and is no step.
pub data Step (m : Manager) : Manager → Type 0 where
  reconnects : {d : ℕ} → m.reconnectc ≡ some d → Step m (on_reconnect m)
  dialed :
      (conn : Option ℕ)
      → 0 < m.dialing
      → m.connc ≡ none
      → IsNew conn m.closed
      → Step m (on_dialed conn m)
  receives :
      (scale : ℕ → ℕ) (conn : Option ℕ)
      → IsJitter scale
      → m.connc ≡ some conn
      → Step m (on_conn scale conn m)
  puts : (err : Option Error) → Step m (on_put err m)

pub data Reach (m : Manager) : Manager → Type 0 where
  here : Reach m m
  next : {t u : Manager} → Reach m t → Step t u → Reach m u
