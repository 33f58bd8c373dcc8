-- ===== src/Sd/Eureka/Registrar.antt =====
-- sd/eureka/registrar.go. A call of Register, Deregister or of the ticker is one step: Deregister
-- waits until the goroutine has deregistered the instance. Of fargo, `Connection` has the methods on
-- the instance, and `status_code` is HTTPResponseStatusCode. Durations are nanoseconds.
pub mod Balanced
use kit_go.Prelude.{
  ℕ, zero, suc, ◌*◌, ◌==◌, ℤ, pos, negsuc, Bool, true, false, List, [], ◌∷◌, Option, none, some,
  if◌then◌else◌,
}
use kit_go.Go.{Error, Act}

pub record Connection (W : Type 0) : Type 0 where
  pub register_instance : Act W (Option Error)
  pub deregister_instance : Act W (Option Error)
  pub reregister_instance : Act W (Option Error)
  pub heart_beat_instance : Act W (Option Error)

-- 30 * time.Second
abbrev pub default_renewal_interval : ℕ
default_renewal_interval = 30_000_000_000

-- The interval of the ticker, from LeaseInfo.RenewalIntervalInSecs.
pub renewal_interval : ℤ → ℕ
renewal_interval (pos zero) = default_renewal_interval
renewal_interval (pos (suc n)) = suc n * 1_000_000_000
renewal_interval (negsuc n) = default_renewal_interval

pub is_not_found : (Error → Option ℕ) → Error → Bool
is_not_found status_code err = elim (status_code err) [ none ↦ false | some code ↦ code == 404 ]

module _ {W : Type 0} (conn : Connection W) (status_code : Error → Option ℕ) where
  pub heartbeat : Act W (Option Error)
  unfolding is_not_found
  heartbeat w =
      let (failed, w₁) = conn.heart_beat_instance w in
      elim failed [
        | none ↦ (none, w₁)
        | some err ↦
            if is_not_found status_code err then conn.reregister_instance w₁ else (some err, w₁)
      ]

  -- Register, Deregister and a tick; the Boolean says that quitc is not nil, and that a goroutine
  -- loops.
  pub register : Bool × W → Bool × W
  register (true, w) = (true, w)
  register (false, w) = (true, (conn.register_instance w).1)

  pub deregister : Bool × W → Bool × W
  deregister (true, w) = (false, (conn.deregister_instance w).1)
  deregister (false, w) = (false, w)

  pub tick : Bool × W → Bool × W
  unfolding heartbeat
  tick (true, w) = (true, (heartbeat w).1)
  tick (false, w) = (false, w)

pub data Call : Type 0 where
  registers deregisters ticks : Call

module _ {W : Type 0} (conn : Connection W) (status_code : Error → Option ℕ) where
  pub run : List Call → Bool × W → Bool × W
  unfolding register deregister tick
  run [] s = s
  run (registers ∷ calls) s = run calls (register conn status_code s)
  run (deregisters ∷ calls) s = run calls (deregister conn status_code s)
  run (ticks ∷ calls) s = run calls (tick conn status_code s)
