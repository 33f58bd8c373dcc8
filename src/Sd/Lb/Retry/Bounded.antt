-- ===== src/Sd/Lb/Retry/Bounded.antt =====
-- `Retry`: a bounded number of attempts, all of which are made before it gives up.
use kit_go.Prelude.{
  ℕ, zero, suc, ◌+◌, ◌≤◌, ◌<◌, ◌≡◌, ◌≢◌, ◌⊎◌, inl, inr, sym, ap, subst, ◌∙◌, Bool-cases,
  append_assoc, List, [], ◌∷◌, ◌++◌, arith, length, ltb, if◌then◌else◌,
}
use kit_go.Go.{Error, Act}
use kit_go.Endpoint.{Endpoint}
use kit_go.Sd.Lb.Retry.{
  RetryError, Callback, Balanced, Arrival, done, settled, exhausted, waiting, response, responses,
  errs, replaced, max_retries, attempt, rounds, retry_with_callback, retry,
}
use kit_go.Sd.Lb.Retry.GivesUp.{GivesUp, Attempt-cases, retry-GivesUp}

GivesUp-length :
    (max i : ℕ) (raw : List Error) (final : Error)
    → GivesUp (max_retries max) i raw final
    → i + length raw ≡ suc (if ltb i max then max else i)
unfolding max_retries
GivesUp-length max i [] final g = absurd g
GivesUp-length max i (err ∷ []) final g = ground arith
GivesUp-length max i (err ∷ next ∷ rest) final g =
    ground (arith, GivesUp-length max (i + 1) (next ∷ rest) final g.1)

GivesUp-last :
    (max i : ℕ) (raw : List Error) (final : Error)
    → GivesUp (max_retries max) i raw final
    → (before : List Error) × (raw ≡ before ++ final ∷ [])
unfolding max_retries replaced
GivesUp-last max i [] final g = absurd g
GivesUp-last max i (err ∷ []) final g = ([], cc)
GivesUp-last max i (err ∷ next ∷ rest) final g =
    let (before, p) = GivesUp-last max (i + 1) (next ∷ rest) final g.1 in (err ∷ before, cc)

-- The schedule in which every round gets its result in time.
abbrev pub settled_rounds : ℕ → List Arrival
settled_rounds zero = []
settled_rounds (suc n) = settled ∷ settled_rounds n

module _ {W Ctx Req Res : Type 0} (b : Act W (Balanced (Endpoint W Ctx Req Res))) where
  rounds_return :
      (max : ℕ) (ctx : Ctx) (request : Req) (schedule : List Arrival) (i : ℕ) (raw : List Error)
      (w : W)
      → max < i + length schedule
      → 0 < length schedule
      → (rounds b (max_retries max) ctx request schedule i raw w).0 ≢ waiting
  unfolding rounds max_retries
  rounds_return max ctx request [] i raw w h k = absurd (omega arith)
  rounds_return max ctx request (done err ∷ schedule) i raw w h k = λ e. cc
  rounds_return max ctx request (settled ∷ schedule) i raw w h k =
      elim (Attempt-cases (attempt b ctx request w).0) [
        | inl (res, p) ↦ λ e. ground arith
        | inr (err, p) ↦ λ e. ground (
          arith,
          rounds_return max ctx request schedule (i + 1) (raw ++ err ∷ [])
              (attempt b ctx request w).1,
        )
      ]

  -- `Retry` always returns: a schedule of as many rounds as the bound, and at least one, is enough.
  pub retry_returns :
      (max : ℕ) (ctx : Ctx) (request : Req) (schedule : List Arrival) (w : W)
      → max ≤ length schedule
      → 0 < length schedule
      → (retry b max ctx request schedule w).0 ≢ waiting
  unfolding retry retry_with_callback
  retry_returns max ctx request schedule w h k =
      rounds_return max ctx request schedule 1 [] w (omega arith) k

  -- One attempt after another is made from `w` to `w'`, and fails with the next of the errors.
  abbrev pub Fails : Ctx → Req → List Error → W → W → Type 0
  Fails ctx request [] w w' = w ≡ w'
  Fails ctx request (err ∷ raw) w w' =
      ((attempt b ctx request w).0 ≡ errs err)
      × Fails ctx request raw (attempt b ctx request w).1 w'

  rounds-Fails :
      (cb : Callback) (ctx : Ctx) (request : Req) (schedule : List Arrival) (i : ℕ)
      (raw : List Error) (w w' : W) (e : RetryError)
      → rounds b cb ctx request schedule i raw w ≡ (exhausted e, w')
      → (new : List Error) × (e.raw_errors ≡ raw ++ new) × Fails ctx request new w w'
  unfolding rounds
  rounds-Fails cb ctx request [] i raw w w' e h = cc
  rounds-Fails cb ctx request (done err ∷ schedule) i raw w w' e h = cc
  rounds-Fails cb ctx request (settled ∷ schedule) i raw w w' e h =
      elim (Attempt-cases (attempt b ctx request w).0) [
        | inl (res, p) ↦ absurd (let no : ⊥ = ground arith in no)
        | inr (err, p) ↦ elim (Bool-cases (cb i err).keep_trying) [
          | inl k ↦
              let (new, q, f) =
                rounds-Fails cb ctx request schedule (i + 1) (raw ++ err ∷ [])
                  (attempt b ctx request w).1 w' e (ground arith) in
              (err ∷ new, q ∙ append_assoc raw (err ∷ []) new, (p, f))
          | inr k ↦ (err ∷ [], ground arith, (p, ground arith))
        ]
      ]

  retry-Fails :
      (max : ℕ) (ctx : Ctx) (request : Req) (schedule : List Arrival) (w : W) (e : RetryError)
      → (retry b max ctx request schedule w).0 ≡ exhausted e
      → Fails ctx request e.raw_errors w (retry b max ctx request schedule w).1
  unfolding retry retry_with_callback
  retry-Fails max ctx request schedule w e h =
      let w' = (retry b max ctx request schedule w).1 in
      let (new, q, f) =
        rounds-Fails (max_retries max) ctx request schedule 1 [] w w' e (ap (λ o. (o, w')) h) in
      subst (λ raw. Fails ctx request raw w w') (sym q) f

  retry_max-GivesUp :
      (max : ℕ) (ctx : Ctx) (request : Req) (schedule : List Arrival) (w : W) (e : RetryError)
      → (retry b max ctx request schedule w).0 ≡ exhausted e
      → GivesUp (max_retries max) 1 e.raw_errors e.final
  unfolding retry
  retry_max-GivesUp max ctx request schedule w e h =
      retry-GivesUp b (max_retries max) ctx request schedule w e h

  -- If `Retry` returns a RetryError, then what it did is just to make as many attempts as the bound,
  -- or one where the bound is 0, each of which failed: the error holds their errors in the order of
  -- the attempts, and `Final` is the last of them.
  pub retry_exhausted :
      (max : ℕ) (ctx : Ctx) (request : Req) (schedule : List Arrival) (w : W) (e : RetryError)
      → (retry b max ctx request schedule w).0 ≡ exhausted e
      → Fails ctx request e.raw_errors w (retry b max ctx request schedule w).1
        × (length e.raw_errors ≡ (if ltb 1 max then max else 1))
        × ((before : List Error) × (e.raw_errors ≡ before ++ e.final ∷ []))
  retry_exhausted max ctx request schedule w e h =
      let g = retry_max-GivesUp max ctx request schedule w e h in
      (
        retry-Fails max ctx request schedule w e h,
        ground (arith, GivesUp-length max 1 e.raw_errors e.final g),
        GivesUp-last max 1 e.raw_errors e.final g,
      )

  -- The state after `n` attempts, and that they all fail.
  unfoldable pub after : Ctx → Req → ℕ → W → W
  after ctx request zero w = w
  after ctx request (suc n) w = after ctx request n (attempt b ctx request w).1

  abbrev pub AllFail : Ctx → Req → ℕ → W → Type 0
  AllFail ctx request zero w = Unit
  AllFail ctx request (suc n) w =
      ((err : Error) × ((attempt b ctx request w).0 ≡ errs err))
      × AllFail ctx request n (attempt b ctx request w).1

  rounds_succeed :
      (max : ℕ) (ctx : Ctx) (request : Req) (n i : ℕ) (raw : List Error) (w w' : W) (res : Res)
      → (n ≡ 0) ⊎ (i + n ≤ max)
      → AllFail ctx request n w
      → attempt b ctx request (after ctx request n w) ≡ (responses res, w')
      → rounds b (max_retries max) ctx request (settled_rounds (suc n)) i raw w ≡ (response res, w')
  unfolding rounds max_retries after
  rounds_succeed max ctx request zero i raw w w' res h a s = ground (arith, s)
  rounds_succeed max ctx request (suc n) i raw w w' res h a s =
      let (err, p) = a.0 in
      ground (
        arith,
        p,
        rounds_succeed max ctx request n (i + 1) (raw ++ err ∷ []) (attempt b ctx request w).1 w'
            res,
      )

  -- If the first `n` attempts fail and the next one answers, with `n` below the bound or 0, then
  -- `Retry` returns that answer and makes no other attempt.
  pub retry_succeeds :
      (max : ℕ) (ctx : Ctx) (request : Req) (n : ℕ) (w w' : W) (res : Res)
      → (n ≡ 0) ⊎ (n < max)
      → AllFail ctx request n w
      → attempt b ctx request (after ctx request n w) ≡ (responses res, w')
      → retry b max ctx request (settled_rounds (suc n)) w ≡ (response res, w')
  unfolding retry retry_with_callback
  retry_succeeds max ctx request n w w' res h a s =
      rounds_succeed max ctx request n 1 [] w w' res (ground arith) a s
