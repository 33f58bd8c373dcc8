-- ===== src/Sd/Lb/RoundRobin.antt =====
-- sd/lb/round_robin.go: the endpoints in turn, by a 64-bit counter.
pub mod Fair
use kit_go.Prelude.{
  ℕ, ◌+◌, ◌-◌, ◌%◌, ◌^◌, List, [], ◌∷◌, Option, none, some, length, get_elem?, if◌then◌else◌, leb,
}
use kit_go.Go.{Error}
use kit_go.Sd.Lb.{Answer, Choice, err_no_endpoints}

pub record RoundRobin : Type 0 where
  pub c : ℕ

pub new_round_robin : RoundRobin
new_round_robin = record { c = 0 }

-- atomic.AddUint64(&rr.c, 1) stores this and returns it.
next_count : ℕ → ℕ
next_count c = (c + 1) % 2 ^ 64

-- The value that was there: one less, on 64 bits.
old_count : ℕ → ℕ
unfolding next_count
old_count c = (next_count c + 2 ^ 64 - 1) % 2 ^ 64

module _ {E : Type 0} where
  pub endpoint : Answer E → RoundRobin → Choice E × RoundRobin
  endpoint answer rr = elim answer.err [
    | some err ↦ (record { endpoint = none; err = some err }, rr)
    | none ↦
        if leb (length answer.endpoints) 0
        then (record { endpoint = none; err = some err_no_endpoints }, rr)
        else (
          record {
            endpoint = get_elem? answer.endpoints (old_count rr.c % length answer.endpoints);
            err = none;
          },
          record { c = next_count rr.c },
        )
  ]

  -- A number of calls, while the endpointer answers the same.
  pub calls : ℕ → Answer E → RoundRobin → List (Choice E) × RoundRobin
  calls ℕ.zero answer rr = ([], rr)
  calls (ℕ.suc n) answer rr =
      let (choice, rr') = endpoint answer rr in
      let (rest, rr'') = calls n answer rr' in (choice ∷ rest, rr'')
