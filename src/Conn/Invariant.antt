-- ===== src/Conn/Invariant.antt =====
-- What holds once the result of the first dial has been received.
use kit_go.Prelude.{
  ℕ, ◌+◌, ◌≤◌, ◌<◌, ◌≡◌, refl, subst, ◌⊎◌, inl, inr, Option-cases, Option, none, some, arith,
}
use kit_go.Sd.EndpointCache.Distinct.{Absent}
use kit_go.Conn.{
  Manager, second, minute, exponential, start, on_reconnect, on_dialed, on_conn, on_put,
}
use kit_go.Conn.Backoff.{IsJitter, exponential_bounds}
use kit_go.Conn.Steps.{Step, Reach, IsNew, reconnects, dialed, receives, puts, here, next}

abbrev pub one_if {ℓ} : {A : Type ℓ} → Option A → ℕ
one_if none = 0
one_if (some a) = 1

abbrev pub one_if_none {ℓ} : {A : Type ℓ} → Option A → ℕ
one_if_none none = 1
one_if_none (some a) = 0

abbrev pub AtMost : ℕ → Option ℕ → Type 0
AtMost n none = Unit
AtMost n (some d) = d ≤ n

-- The connection that is on its way in the channel.
abbrev pub arriving : Option (Option ℕ) → Option ℕ
arriving none = none
arriving (some conn) = conn

pub record Inv (m : Manager) : Type 0 where
  -- Without a connection exactly one thing is on its way to make one: a timer, a dial or a
  -- result; with a connection, nothing is.
  pub one_way : one_if m.reconnectc + m.dialing + one_if m.connc ≡ one_if_none m.conn
  -- No connection that was closed is in use or on its way.
  pub open_conn : IsNew m.conn m.closed
  pub open_arriving : IsNew (arriving m.connc) m.closed
  pub backoff_low : second ≤ m.backoff
  pub backoff_high : m.backoff ≤ minute
  pub wait_high : AtMost minute m.reconnectc

Inv-start :
    (scale : ℕ → ℕ) (conn : Option ℕ) → IsJitter scale → Inv (on_conn scale conn (start conn))
unfolding on_conn start
Inv-start scale none j =
    let (low, wide, high) = exponential_bounds scale second j (omega arith) in
    record {
      one_way = omega arith;
      open_conn = tt;
      open_arriving = tt;
      backoff_low = low;
      backoff_high = high;
      wait_high = high;
    }
Inv-start scale (some c) j = record {
  one_way = omega arith;
  open_conn = tt;
  open_arriving = tt;
  backoff_low = omega arith;
  backoff_high = omega arith;
  wait_high = tt;
}

Inv-Step : {m n : Manager} → Step m n → Inv m → Inv n
unfolding on_reconnect on_dialed on_conn on_put
Inv-Step (reconnects e) v = ground arith
Inv-Step {m} (dialed conn h e new) v = record {
  one_way = ground arith;
  open_conn = v.open_conn;
  open_arriving = new;
  backoff_low = v.backoff_low;
  backoff_high = v.backoff_high;
  wait_high = v.wait_high;
}
Inv-Step {m} (receives scale none j e) v =
    let (low, wide, high) = exponential_bounds scale m.backoff j v.backoff_high in
    record {
      one_way = ground arith;
      open_conn = tt;
      open_arriving = tt;
      backoff_low = omega arith;
      backoff_high = high;
      wait_high = high;
    }
Inv-Step {m} (receives scale (some c) j e) v = record {
  one_way = ground arith;
  open_conn = subst (λ o. IsNew (arriving o) m.closed) e v.open_arriving;
  open_arriving = tt;
  backoff_low = omega arith;
  backoff_high = omega arith;
  wait_high = tt;
}
Inv-Step (puts none) v = v
Inv-Step {m} (puts (some err)) v = record {
  one_way = ground arith;
  open_conn = ground arith;
  open_arriving = ground arith;
  backoff_low = ground arith;
  backoff_high = ground arith;
  wait_high = ground arith;
}

Inv-reach : {m n : Manager} → Reach m n → Inv m → Inv n
Inv-reach here v = v
Inv-reach (next r st) v = Inv-Step st (Inv-reach r v)

-- If the first dial's result is received before anything is put, then from there on, whatever the
-- order of puts, timers, dials and results: without a connection exactly one timer, dial or result is on its way to make one,
-- and with a connection none; the connection in use and the one on its way were never closed;
-- the backoff lies between a second and a minute, and no timer is longer than a minute.
pub Reach-Inv :
    (scale : ℕ → ℕ) (conn : Option ℕ) {n : Manager}
    → IsJitter scale
    → Reach (on_conn scale conn (start conn)) n
    → Inv n
Reach-Inv scale conn j r = Inv-reach r (Inv-start scale conn j)

Connects : Manager → Type 0
Connects m = (n : Manager) × (c : ℕ) × Reach m n × (n.conn ≡ some c)

Reach-trans : {a b c : Manager} → Reach a b → Reach b c → Reach a c
Reach-trans r here = r
Reach-trans r (next s st) = next (Reach-trans r s) st

Connects-Step : {m n : Manager} → Step m n → Connects n → Connects m
unfolding Connects
Connects-Step st (t, c, r, e) = (t, c, Reach-trans (next here st) r, e)

module _ (scale : ℕ → ℕ) (j : IsJitter scale) where
  from_result : (m : Manager) (c : ℕ) → m.connc ≡ some (some c) → Connects m
  unfolding on_conn Connects
  from_result m c e = (on_conn scale (some c) m, c, next here (receives scale (some c) j e), refl)

  from_dial :
      (m : Manager) (c : ℕ) → 0 < m.dialing → m.connc ≡ none → Absent c m.closed → Connects m
  from_dial m c d e a =
      Connects-Step (dialed (some c) d e a)
        (from_result (on_dialed (some c) m) c (unfold on_dialed in refl))

  from_timer :
      (m : Manager) (c : ℕ) {d : ℕ}
      → m.reconnectc ≡ some d
      → m.connc ≡ none
      → Absent c m.closed
      → Connects m
  from_timer m c t e a = Connects-Step (reconnects t) (
      from_dial (on_reconnect m) c (unfold on_reconnect in omega arith) (unfold on_reconnect in e)
        (unfold on_reconnect in a))

  from_failure : (m : Manager) (c : ℕ) → m.connc ≡ some none → Absent c m.closed → Connects m
  from_failure m c e a = Connects-Step (receives scale none j e) (
      from_timer (on_conn scale none m) c {d = exponential scale m.backoff} (unfold on_conn in refl)
        (unfold on_conn in refl) (unfold on_conn in a))

  -- The manager is never stuck without a connection: from every state of the invariant, if the
  -- dialer can make a connection that was not closed, some steps lead to one in use.
  pub reconnection :
      (m : Manager) (c : ℕ)
      → Inv m
      → Absent c m.closed
      → (n : Manager) × (c' : ℕ) × Reach m n × (n.conn ≡ some c')
  reconnection m c v a =
      unfold Connects in
      connects (Option-cases m.conn) (Option-cases m.connc) (Option-cases m.reconnectc)
    where
      connects :
          (m.conn ≡ none) ⊎ ((x : ℕ) × (m.conn ≡ some x))
          → (m.connc ≡ none) ⊎ ((x : Option ℕ) × (m.connc ≡ some x))
          → (m.reconnectc ≡ none) ⊎ ((x : ℕ) × (m.reconnectc ≡ some x))
          → Connects m
      connects (inr (x, p)) q t = unfold Connects in (m, x, here, p)
      connects (inl p) (inr (none, q)) t = from_failure m c q a
      connects (inl p) (inr (some x, q)) t = from_result m x q
      connects (inl p) (inl q) (inl t) = from_dial m c (ground (arith, v.one_way)) q a
      connects (inl p) (inl q) (inr (x, t)) = from_timer m c t q a
