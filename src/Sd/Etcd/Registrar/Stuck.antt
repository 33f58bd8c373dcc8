-- ===== src/Sd/Etcd/Registrar/Stuck.antt =====
-- sd/etcd/registrar.go: the bounds of NewTTLOption, and what a second call of Register can lead to.
use kit_go.Prelude.{ℕ, ◌≤◌, ◌<◌, ◌≡◌, refl, subst, ◌∙◌, true, false, List, [], some, arith}
use kit_go.Sd.Etcd.Registrar.{
  min_heart_beat_time, new_ttl_option, Phase, returned, Registrar, register, begin, moved, Step,
  registers, begins, selects, ticks, stops, deregisters, Steps, nothing, and_then,
}

-- The heartbeat is at least 500 ms and the TTL is above it, and both are the given ones where these
-- are in order.
pub new_ttl_option_bounds :
    (heartbeat ttl : ℕ)
    → let o = new_ttl_option heartbeat ttl in
      (min_heart_beat_time ≤ o.heartbeat)
      × (o.heartbeat < o.ttl)
      × (min_heart_beat_time < heartbeat
          → heartbeat < ttl
          → o ≡ record { heartbeat = heartbeat; ttl = ttl })
unfolding new_ttl_option
new_ttl_option_bounds heartbeat ttl = (ground arith, ground arith, λ p q. ground (arith, p, q))

-- No step from a locked registrar unlocks it, closes a channel or changes `quit`.
locked_stays :
    {r s : Registrar}
    → Step r s
    → r.locked ≡ true
    → (s.locked ≡ true) × (s.closed ≡ r.closed) × (s.quit ≡ r.quit)
unfolding register moved
locked_stays (registers r) l = (l, refl, refl)
locked_stays (begins r xs ys e p) l = absurd (let no : ⊥ = ground (arith, p, l) in no)
locked_stays (selects r xs ys e) l = (l, refl, refl)
locked_stays (ticks r xs ys q e) l = (l, refl, refl)
locked_stays (stops r xs ys q e m) l = (l, refl, refl)
locked_stays (deregisters r p) l = absurd (let no : ⊥ = ground (arith, p, l) in no)

locked_forever :
    {r s : Registrar}
    → Steps r s
    → r.locked ≡ true
    → (s.locked ≡ true) × (s.closed ≡ r.closed) × (s.quit ≡ r.quit)
locked_forever (nothing r) l = (l, refl, refl)
locked_forever (and_then r s t first rest) l =
    let (l₁, c₁, q₁) = locked_stays first l in
    let (l₂, c₂, q₂) = locked_forever rest l₁ in (l₂, c₂ ∙ c₁, q₂ ∙ q₁)

-- A goroutine that starts while another one loops keeps the lock.
begin_locks :
    (r : Registrar) (xs ys : List Phase) (q : ℕ)
    → r.quit ≡ some q
    → (let (phase, r') = begin r in moved xs phase ys r')
      ≡ moved xs returned ys (record r { locked = true })
unfolding begin moved
begin_locks r xs ys q e = ground (arith, e)

-- While a goroutine loops and the lock is free, a second call of Register can lead to a state from
-- which the lock is never free again: no later Deregister gets on, and the channel of the goroutine
-- stays open.
pub second_register_locks :
    (r : Registrar) (q : ℕ)
    → r.locked ≡ false
    → r.quit ≡ some q
    → (s : Registrar) × Steps r s
      × ((t : Registrar)
          → Steps s t
          → (t.locked ≡ true) × (t.closed ≡ r.closed) × (t.quit ≡ some q))
unfolding register begin moved
second_register_locks r q free looping =
    let s = moved [] returned r.loops (record (register r) { locked = true }) in
    let steps : Steps r s = and_then r (register r) s (registers r) (
      and_then (register r) s s
        (subst (Step (register r)) (begin_locks (register r) [] r.loops q looping)
          (begins (register r) [] r.loops refl free))
        (nothing s)) in
    (s, steps, λ t more. let (l, c, e) = locked_forever more refl in (l, c, e ∙ looping))
