-- ===== src/Sd/Etcd/Registrar.antt =====
-- sd/etcd/registrar.go: NewTTLOption, and Register, Deregister and their goroutines as steps. A
-- channel is a number. `quitmtx` is a Boolean: it is `locked` where a goroutine holds it and has
-- returned. Durations are nanoseconds.
pub mod Stuck
use kit_go.Prelude.{
  ℕ, suc, ◌*◌, leb, ◌≡◌, Bool, true, false, List, [], ◌∷◌, ◌++◌, Option, none, some, if◌then◌else◌,
}
use mathlib.Core.List.{Memᴰ}

-- 500 * time.Millisecond
abbrev pub min_heart_beat_time : ℕ
min_heart_beat_time = 500_000_000

pub record TtlOption : Type 0 where
  pub heartbeat : ℕ
  pub ttl : ℕ

pub new_ttl_option : ℕ → ℕ → TtlOption
new_ttl_option heartbeat ttl =
    let heartbeat' = if leb heartbeat min_heart_beat_time then min_heart_beat_time else heartbeat in
    record { heartbeat = heartbeat'; ttl = if leb ttl heartbeat' then 3 * heartbeat' else ttl }

-- Where a goroutine `loop` stands: before the lock, before the select, in the select on the value
-- that r.quit had, or at its end.
pub data Phase : Type 0 where
  starting running returned : Phase
  selecting : Option ℕ → Phase

-- A Registrar of a service with a TTL, its goroutines, and the channels that were closed; the next
-- channel that is made is `made`.
pub record Registrar : Type 0 where
  pub locked : Bool
  pub quit : Option ℕ
  pub made : ℕ
  pub closed : List ℕ
  pub loops : List Phase

-- NewRegistrar
pub new_registrar : Registrar
new_registrar = record { locked = false; quit = none; made = 0; closed = []; loops = [] }

-- Register, with a TTL.
unfoldable pub register : Registrar → Registrar
register r = record r { loops = starting ∷ r.loops }

-- The start of `loop`, which holds the lock: the phase after it.
unfoldable pub begin : Registrar → Phase × Registrar
begin r = elim r.quit [
  | some q ↦ (returned, record r { locked = true })
  | none ↦ (running, record r { quit = some r.made; made = suc r.made })
]

-- Deregister, which holds the lock.
unfoldable pub deregister : Registrar → Registrar
deregister r = elim r.quit [ none ↦ r | some q ↦ record r { quit = none; closed = q ∷ r.closed } ]

-- A goroutine goes on to another phase.
unfoldable pub moved : List Phase → Phase → List Phase → Registrar → Registrar
moved xs phase ys r = record r { loops = xs ++ phase ∷ ys }

-- A step of a caller or of a goroutine; a tick calls client.Register and goes back to the select.
pub data Step : Registrar → Registrar → Type 0 where
  registers : (r : Registrar) → Step r (register r)
  begins :
      (r : Registrar) (xs ys : List Phase)
      → r.loops ≡ xs ++ starting ∷ ys
      → r.locked ≡ false
      → Step r (let (phase, r') = begin r in moved xs phase ys r')
  selects :
      (r : Registrar) (xs ys : List Phase)
      → r.loops ≡ xs ++ running ∷ ys
      → Step r (moved xs (selecting r.quit) ys r)
  ticks :
      (r : Registrar) (xs ys : List Phase) (q : Option ℕ)
      → r.loops ≡ xs ++ selecting q ∷ ys
      → Step r (moved xs running ys r)
  stops :
      (r : Registrar) (xs ys : List Phase) (q : ℕ)
      → r.loops ≡ xs ++ selecting (some q) ∷ ys
      → Memᴰ q r.closed
      → Step r (moved xs returned ys r)
  deregisters : (r : Registrar) → r.locked ≡ false → Step r (deregister r)

pub data Steps : Registrar → Registrar → Type 0 where
  nothing : (r : Registrar) → Steps r r
  and_then : (r s t : Registrar) → Step r s → Steps s t → Steps r t
