-- ===== src/Conn.antt =====
-- util/conn/manager.go: one connection, redialled with exponential backoff. Connections are
-- numbers, durations are nanoseconds, and what the loop selects on is a step relation.
pub mod Backoff
pub mod Steps
pub mod Invariant
pub mod Startup
use kit_go.Prelude.{
  ℕ, ◌+◌, ◌-◌, ◌*◌, ◌≡◌, ◌<◌, Bool, List, [], ◌∷◌, ◌++◌, Option, none, some, ltb, if◌then◌else◌,
}
use kit_go.Go.{Error, errors_new}

abbrev pub second : ℕ
second = 1_000_000_000

abbrev pub minute : ℕ
minute = 60_000_000_000

abbrev pub err_connection_unavailable : Error
err_connection_unavailable = errors_new "connection unavailable"

-- Exponential. `scale` is the product with the jitter that was drawn, cut to whole nanoseconds.
pub exponential : (ℕ → ℕ) → ℕ → ℕ
exponential scale d = let d' = scale (d * 2) in if ltb minute d' then minute else d'

-- The variables of `loop`: `connc` is the buffer of the channel, `dialing` counts the goroutines
-- that dial, `reconnectc` is the wait that was asked for, none for the nil channel. The
-- connections that were closed are kept in `closed`.
pub record Manager : Type 0 where
  pub conn : Option ℕ
  pub connc : Option (Option ℕ)
  pub dialing : ℕ
  pub reconnectc : Option ℕ
  pub backoff : ℕ
  pub closed : List ℕ

-- `dial`: a connection that comes with an error is dropped.
pub dial : Option ℕ → Option Error → Option ℕ
dial conn none = conn
dial conn (some err) = none

-- The start of `loop`, with the result of the first dial.
unfoldable pub start : Option ℕ → Manager
start conn = record {
  conn = conn;
  connc = some conn;
  dialing = 0;
  reconnectc = none;
  backoff = second;
  closed = [];
}

-- case <-reconnectc
unfoldable pub on_reconnect : Manager → Manager
on_reconnect m = record m { reconnectc = none; dialing = m.dialing + 1 }

-- A dialling goroutine sends its result into the free buffer.
pub on_dialed : Option ℕ → Manager → Manager
on_dialed conn m = record m { connc = some conn; dialing = m.dialing - 1 }

-- case conn = <-connc
unfoldable pub on_conn : (ℕ → ℕ) → Option ℕ → Manager → Manager
on_conn scale none m =
    let wait = exponential scale m.backoff in
    record m { conn = none; connc = none; backoff = wait; reconnectc = some wait }
on_conn scale (some c) m = record m {
  conn = some c;
  connc = none;
  backoff = second;
  reconnectc = none;
}

-- case err := <-m.putc
unfoldable pub on_put : Option Error → Manager → Manager
on_put none m = m
on_put (some err) m = elim m.conn [
  | none ↦ m
  | some c ↦ record m { conn = none; closed = m.closed ++ c ∷ []; reconnectc = some 1 }
]

-- Manager.Write: a Take, a write by `send` on the connection, and a Put of its error.
pub write :
    (ℕ → record { n : ℕ; err : Option Error })
    → Manager
    → (record { n : ℕ; err : Option Error }) × Manager
write send m = elim m.conn [
  | none ↦ (record { n = 0; err = some err_connection_unavailable }, m)
  | some c ↦ (send c, on_put (send c).err m)
]
