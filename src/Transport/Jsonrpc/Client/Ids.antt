-- ===== src/Transport/Jsonrpc/Client/Ids.antt =====
-- transport/http/jsonrpc/client.go: the ids that an autoIncrementID generates, and what the client
-- decodes of a response that the server made.
use kit_go.Prelude.{ℕ, zero, suc, ◌+◌, ◌%◌, ◌^◌, ◌<◌, ◌≡◌, ◌≢◌, arith}
use kit_go.Transport.Jsonrpc.Client.{new_auto_increment_id, generate}

-- The counter after some calls of Generate.
pub after_calls : ℕ → ℕ → ℕ
unfolding generate
after_calls zero v = v
after_calls (suc n) v = after_calls n (generate v).1

-- The id that a generator returns after `n` others.
pub nth_id : ℕ → ℕ → ℕ
unfolding generate after_calls new_auto_increment_id
nth_id init n = (generate (after_calls n (new_auto_increment_id init))).0

after_calls-add : (n v : ℕ) → v < 2 ^ 64 → after_calls n v ≡ (v + n) % 2 ^ 64
unfolding after_calls generate
after_calls-add zero v h = omega arith
after_calls-add (suc n) v h = omega (arith, after_calls-add n ((v + 1) % 2 ^ 64) (omega arith))

nth_id-add : (init n : ℕ) → nth_id init n ≡ (init + n) % 2 ^ 64
unfolding nth_id generate new_auto_increment_id
nth_id-add init n = omega (arith, after_calls-add n (new_auto_increment_id init) (omega arith))

-- The first id is the initial value, and two of 2 ^ 64 ids in a row are different.
pub nth_id_fresh :
    (init i j : ℕ)
    → init < 2 ^ 64
    → i < j
    → j < i + 2 ^ 64
    → (nth_id init 0 ≡ init) × (nth_id init i ≢ nth_id init j)
nth_id_fresh init i j h p q =
    (omega (arith, nth_id-add init 0), λ e. omega (arith, nth_id-add init i, nth_id-add init j))
