-- ===== src/Sd/Eureka/Registrar/Balanced.antt =====
-- sd/eureka/registrar.go: an instance is registered and deregistered in turns.
use kit_go.Prelude.{
  ℕ, suc, ◌+◌, ◌≡◌, Bool, true, false, List, [], ◌∷◌, Option, Option-cases, inl, inr, arith,
}
use kit_go.Go.{Error}
use kit_go.Sd.Eureka.Registrar.{
  Connection, heartbeat, register, deregister, tick, Call, registers, deregisters, ticks, run,
}

-- Counts of the calls of RegisterInstance and DeregisterInstance, whether these fail or not.
pub record Counts {W : Type 0} (conn : Connection W) : Type 0 where
  pub registered : W → ℕ
  pub deregistered : W → ℕ
  pub registered-register : (w : W) → registered (conn.register_instance w).1 ≡ suc (registered w)
  pub registered-deregister : (w : W) → registered (conn.deregister_instance w).1 ≡ registered w
  pub registered-reregister : (w : W) → registered (conn.reregister_instance w).1 ≡ registered w
  pub registered-heart_beat : (w : W) → registered (conn.heart_beat_instance w).1 ≡ registered w
  pub deregistered-register : (w : W) → deregistered (conn.register_instance w).1 ≡ deregistered w
  pub deregistered-deregister :
      (w : W) → deregistered (conn.deregister_instance w).1 ≡ suc (deregistered w)
  pub deregistered-reregister :
      (w : W) → deregistered (conn.reregister_instance w).1 ≡ deregistered w
  pub deregistered-heart_beat :
      (w : W) → deregistered (conn.heart_beat_instance w).1 ≡ deregistered w

abbrev pub one_if : Bool → ℕ
one_if true = 1
one_if false = 0

module _ {W : Type 0} (conn : Connection W) (status_code : Error → Option ℕ) (k : Counts conn) where
  heartbeat-counts :
      (w : W)
      → (k.registered (heartbeat conn status_code w).1 ≡ k.registered w)
        × (k.deregistered (heartbeat conn status_code w).1 ≡ k.deregistered w)
  unfolding heartbeat
  heartbeat-counts w =
      let (failed, w₁) = conn.heart_beat_instance w in
      elim (Option-cases failed) [
        | inl p ↦ ground (arith, p, k.registered-heart_beat w, k.deregistered-heart_beat w)
        | inr (err, p) ↦ ground (
          arith,
          p,
          k.registered-heart_beat w,
          k.deregistered-heart_beat w,
          k.registered-reregister w₁,
          k.deregistered-reregister w₁,
        )
      ]

  -- Whatever is called and ticks, RegisterInstance has been called once more than
  -- DeregisterInstance while the registrar is registered, and as often while it is not, if this was
  -- so before.
  pub run_balanced :
      (calls : List Call) (s : Bool × W)
      → k.registered s.1 ≡ one_if s.0 + k.deregistered s.1
      → let s' = run conn status_code calls s in
        k.registered s'.1 ≡ one_if s'.0 + k.deregistered s'.1
  unfolding run register deregister tick
  run_balanced [] s h = h
  run_balanced (registers ∷ calls) (true, w) h = run_balanced calls (true, w) h
  run_balanced (registers ∷ calls) (false, w) h =
      run_balanced calls (true, (conn.register_instance w).1)
        (ground (arith, h, k.registered-register w, k.deregistered-register w))
  run_balanced (deregisters ∷ calls) (true, w) h =
      run_balanced calls (false, (conn.deregister_instance w).1)
        (ground (arith, h, k.registered-deregister w, k.deregistered-deregister w))
  run_balanced (deregisters ∷ calls) (false, w) h = run_balanced calls (false, w) h
  run_balanced (ticks ∷ calls) (true, w) h =
      let (p, q) = heartbeat-counts w in
      run_balanced calls (true, (heartbeat conn status_code w).1) (ground (arith, h, p, q))
  run_balanced (ticks ∷ calls) (false, w) h = run_balanced calls (false, w) h
