-- ===== src/Conn/Startup.antt =====
-- util/conn/manager.go: before the result of the first dial has been received, the loop holds it
-- twice, in `conn` and in the channel.
use mathlib.Core.List.{Memᴰ}
use mathlib.Core.List.Memᴰ.{head}
use kit_go.Prelude.{
  ℕ, ◌≡◌, ◌+◌, refl, ap, sym, subst, ◌⊎◌, inl, inr, [], ◌∷◌, ◌++◌, Option, none, some,
}
use kit_go.Go.{Error}
use kit_go.Conn.{Manager, start, on_conn, on_put, on_reconnect}
use kit_go.Conn.Backoff.{IsJitter}
use kit_go.Conn.Steps.{Reach, reconnects, receives, puts, here, next}

-- The steps that the loop makes from `m` without receiving from the channel.
pub data Unreceived (m : Manager) : Manager → Type 0 where
  started : Unreceived m m
  put : {t : Manager} → Unreceived m t → (err : Option Error) → Unreceived m (on_put err t)
  fired :
      {t : Manager} {d : ℕ} → Unreceived m t → t.reconnectc ≡ some d → Unreceived m (on_reconnect t)

Unreceived-Reach : {m n : Manager} → Unreceived m n → Reach m n
Unreceived-Reach started = here
Unreceived-Reach (put u err) = next (Unreceived-Reach u) (puts err)
Unreceived-Reach (fired u p) = next (Unreceived-Reach u) (reconnects p)

-- How the loop stands: no error was put, or one was and closed the connection, with a timer set or a
-- dial on its way.
data Startup (c : ℕ) (m : Manager) : Type 0 where
  in_use :
      m.connc ≡ some (some c)
      → m.conn ≡ some c
      → m.reconnectc ≡ none
      → m.dialing ≡ 0
      → m.closed ≡ []
      → Startup c m
  timing :
      m.connc ≡ some (some c)
      → m.conn ≡ none
      → m.reconnectc ≡ some 1
      → m.dialing ≡ 0
      → m.closed ≡ c ∷ []
      → Startup c m
  dials :
      m.connc ≡ some (some c)
      → m.conn ≡ none
      → m.reconnectc ≡ none
      → m.dialing ≡ 1
      → m.closed ≡ c ∷ []
      → Startup c m

no_conn : (m : Manager) (err : Error) → m.conn ≡ none → on_put (some err) m ≡ m
unfolding on_put
no_conn m err q = simp (q, on_put)

with_conn :
    (m : Manager) (c : ℕ) (err : Error)
    → m.conn ≡ some c
    → on_put (some err) m
      ≡ record m { conn = none; closed = m.closed ++ c ∷ []; reconnectc = some 1 }
unfolding on_put
with_conn m c err q = rw (q, on_put)

Startup-put : {c : ℕ} {m : Manager} (err : Option Error) → Startup c m → Startup c (on_put err m)
unfolding on_put
Startup-put none v = v
Startup-put {c} {m} (some err) (in_use p q r d e) =
    rw (with_conn m c err q) (timing p refl refl d (ap (λ l. l ++ c ∷ []) e))
Startup-put {c} {m} (some err) (timing p q r d e) = rw (no_conn m err q) (timing p q r d e)
Startup-put {c} {m} (some err) (dials p q r d e) = rw (no_conn m err q) (dials p q r d e)

Startup-fired :
    {c d : ℕ} {m : Manager} → m.reconnectc ≡ some d → Startup c m → Startup c (on_reconnect m)
unfolding on_reconnect
Startup-fired h (in_use p q r d e) = cc
Startup-fired h (timing p q r d e) = dials p q refl (ap (λ n. n + 1) d) e
Startup-fired h (dials p q r d e) = cc

Unreceived-Startup : (c : ℕ) {n : Manager} → Unreceived (start (some c)) n → Startup c n
unfolding start
Unreceived-Startup c started = in_use refl refl refl refl refl
Unreceived-Startup c (put u err) = Startup-put err (Unreceived-Startup c u)
Unreceived-Startup c (fired u p) = Startup-fired p (Unreceived-Startup c u)

-- Whatever is put and fires before the loop receives the result of the first dial: if it has no
-- connection then, since an error was put, that result can be received, and the connection, which the
-- loop has closed, is in use again. No timer is set then and nothing is in the channel; a dial is on
-- its way just if the timer had fired before, which is after a nanosecond.
pub stale_connection :
    (scale : ℕ → ℕ) (c : ℕ) {n : Manager}
    → IsJitter scale
    → Unreceived (start (some c)) n
    → n.conn ≡ none
    → let n' = on_conn scale (some c) n in
      Reach (start (some c)) n'
      × (n'.conn ≡ some c)
      × Memᴰ c n'.closed
      × (n'.reconnectc ≡ none)
      × (n'.connc ≡ none)
      × (((n.reconnectc ≡ some 1) × (n'.dialing ≡ 0)) ⊎ ((n.reconnectc ≡ none) × (n'.dialing ≡ 1)))
unfolding on_conn
stale_connection scale c {n} j u h =
    let after : n.connc ≡ some (some c) → Reach (start (some c)) (on_conn scale (some c) n) =
      λ p. next (Unreceived-Reach u) (receives scale (some c) j p) in
    let again = λ (e : n.closed ≡ c ∷ []). subst (λ l. Memᴰ c l) (sym e) (head refl) in
    elim (Unreceived-Startup c u) [
      | in_use p q r d e ↦ cc
      | timing p q r d e ↦ (after p, refl, again e, refl, refl, inl (r, d))
      | dials p q r d e ↦ (after p, refl, again e, refl, refl, inr (r, d))
    ]
