-- ===== src/Tests/Connection.antt =====
-- util/conn/manager.go on small inputs.
use mathlib.Core.List.{Memᴰ}
use kit_go.Prelude.{ℕ, ◌≡◌, ◌⊎◌, refl, [], ◌∷◌, none, some, arith}
use kit_go.Go.{errors_new}
use kit_go.Conn.{Manager, start, on_conn, on_put, on_reconnect}
use kit_go.Conn.Backoff.{IsJitter}
use kit_go.Conn.Steps.{Reach, here, next, puts}
use kit_go.Conn.Invariant.{Inv, Reach-Inv, reconnection}
use kit_go.Conn.Startup.{put, fired, started, stale_connection}

-- No jitter.
abbrev same_length : ℕ → ℕ
same_length d = d

same_length-IsJitter : IsJitter same_length
same_length-IsJitter d = (omega arith, omega arith)

abbrev connected : Manager
connected = on_conn same_length (some 1) (start (some 1))

abbrev lost : Manager
lost = on_put (some (errors_new "reset")) connected

Reach-Inv_example : Inv lost
Reach-Inv_example =
    Reach-Inv same_length (some 1) same_length-IsJitter
      (next here (puts (some (errors_new "reset"))))

closed_of_lost : lost.closed ≡ 1 ∷ []
unfolding on_conn on_put start
closed_of_lost = refl

reconnection_example : (n : Manager) × (c : ℕ) × Reach lost n × (n.conn ≡ some c)
reconnection_example =
    reconnection same_length same_length-IsJitter lost 2
      (Reach-Inv same_length (some 1) same_length-IsJitter
        (next here (puts (some (errors_new "reset")))))
      (rw closed_of_lost ((λ e. absurd (omega arith)), tt))

-- An error is put, and the timer fires.
abbrev unreceived : Manager
unreceived = on_reconnect (on_put (some (errors_new "reset")) (start (some 1)))

error_put :
    ((on_put (some (errors_new "reset")) (start (some 1))).reconnectc ≡ some 1)
    × (unreceived.conn ≡ none)
unfolding on_put on_reconnect start
error_put = (refl, refl)

stale_connection_example :
    let n' = on_conn same_length (some 1) unreceived in
    Reach (start (some 1)) n'
    × (n'.conn ≡ some 1)
    × Memᴰ 1 n'.closed
    × (n'.reconnectc ≡ none)
    × (n'.connc ≡ none)
    × (((unreceived.reconnectc ≡ some 1) × (n'.dialing ≡ 0))
        ⊎ ((unreceived.reconnectc ≡ none) × (n'.dialing ≡ 1)))
stale_connection_example =
    stale_connection same_length 1 same_length-IsJitter
      (fired (put started (some (errors_new "reset"))) error_put.0) error_put.1
