-- ===== src/Sd/Lb/Retry/GivesUp.antt =====
-- When the retries end with an error, and with which.
use kit_go.Prelude.{
  ℕ, ◌+◌, ◌≡◌, ◌⊎◌, refl, subst, ◌∙◌, Bool-cases, inl, inr, true, false, List, [], ◌∷◌, ◌++◌, some,
  arith, append_assoc, sym,
}
use kit_go.Go.{Error, Act}
use kit_go.Endpoint.{Endpoint}
use kit_go.Sd.Lb.Retry.{
  RetryError, Callback, Balanced, Arrival, done, settled, exhausted, Attempt, responses, errs,
  replaced, attempt, rounds, retry_with_callback,
}

-- From round `i` on, the callback lets the errors pass up to the last one, where it stops, and
-- `final` is what it puts in the place of that one, if anything.
abbrev pub GivesUp : Callback → ℕ → List Error → Error → Type 0
GivesUp cb i [] final = ⊥
GivesUp cb i (err ∷ []) final =
    ((cb i err).keep_trying ≡ false) × (final ≡ replaced (cb i err).replacement err)
GivesUp cb i (err ∷ next ∷ rest) final =
    ((cb i err).keep_trying ≡ true) × GivesUp cb (i + 1) (next ∷ rest) final

pub Attempt-cases :
    {Res : Type 0} (r : Attempt Res)
    → ((res : Res) × (r ≡ responses res)) ⊎ ((err : Error) × (r ≡ errs err))
Attempt-cases (responses res) = inl (res, refl)
Attempt-cases (errs err) = inr (err, refl)

module _ {W Ctx Req Res : Type 0} (b : Act W (Balanced (Endpoint W Ctx Req Res))) where
  GivesUp-cons :
      (cb : Callback) (i : ℕ) (err : Error) (rest : List Error) (final : Error)
      → (cb i err).keep_trying ≡ true
      → GivesUp cb (i + 1) rest final
      → GivesUp cb i (err ∷ rest) final
  GivesUp-cons cb i err [] final k g = absurd g
  GivesUp-cons cb i err (next ∷ rest) final k g = (k, g)

  -- The errors of a round and those after it are added behind the earlier ones.
  rounds_exhausted :
      (cb : Callback) (ctx : Ctx) (request : Req) (schedule : List Arrival) (i : ℕ)
      (raw : List Error) (w : W) (e : RetryError)
      → (rounds b cb ctx request schedule i raw w).0 ≡ exhausted e
      → (new : List Error) × (e.raw_errors ≡ raw ++ new) × GivesUp cb i new e.final
  unfolding rounds
  rounds_exhausted cb ctx request [] i raw w e h = cc
  rounds_exhausted cb ctx request (done err ∷ schedule) i raw w e h = cc
  rounds_exhausted cb ctx request (settled ∷ schedule) i raw w e h =
      elim (Attempt-cases (attempt b ctx request w).0) [
        | inl (res, p) ↦ absurd (let no : ⊥ = ground arith in no)
        | inr (err, p) ↦ elim (Bool-cases (cb i err).keep_trying) [
          | inl k ↦
              let (new, q, g) =
                rounds_exhausted cb ctx request schedule (i + 1) (raw ++ err ∷ [])
                  (attempt b ctx request w).1 e (ground arith) in
              (
                err ∷ new,
                q ∙ append_assoc raw (err ∷ []) new,
                GivesUp-cons cb i err new e.final k g,
              )
          | inr k ↦ (err ∷ [], ground arith, (k, ground arith))
        ]
      ]

  -- If the endpoint returns a RetryError, it holds the errors of all the rounds, in their order:
  -- the callback let all but the last one pass, counting the rounds from 1, and stopped at the
  -- last; `Final` is the callback's replacement for that one or, without one, the error itself.
  pub retry-GivesUp :
      (cb : Callback) (ctx : Ctx) (request : Req) (schedule : List Arrival) (w : W) (e : RetryError)
      → (retry_with_callback b (some cb) ctx request schedule w).0 ≡ exhausted e
      → GivesUp cb 1 e.raw_errors e.final
  unfolding retry_with_callback
  retry-GivesUp cb ctx request schedule w e h =
      let (new, q, g) = rounds_exhausted cb ctx request schedule 1 [] w e h in
      subst (λ l. GivesUp cb 1 l e.final) (sym q) g
