-- ===== src/Sd/Lb/Retry.antt =====
-- sd/lb/retry.go: an endpoint that tries the endpoints of a balancer until one answers.
-- Each round starts one goroutine and waits for it or for the deadline of the context. What the
-- `select` receives is given by a schedule, an element for each round. The effects of a goroutine
-- that is still running when the deadline passes are not modelled.
pub mod GivesUp
pub mod Bounded
use Prim.Native.String.{◌++◌ as str_append}
use kit_go.Prelude.{
  ℕ, zero, suc, ◌+◌, ◌-◌, String, Bool, true, List, [], ◌∷◌, ◌++◌, map, Option, none, some, length,
  take, ltb, if◌then◌else◌,
}
use kit_go.Go.{Error, Act}
use kit_go.Endpoint.{Endpoint}

pub record RetryError : Type 0 where
  pub raw_errors : List Error
  pub final : Error

-- strings.Join
join : String → List String → String
join sep [] = ""
join sep (s ∷ []) = s
join sep (s ∷ t ∷ rest) = str_append s (str_append sep (join sep (t ∷ rest)))

-- RetryError.Error
pub error_text : RetryError → String
unfolding join
error_text e =
    let suffix =
      if ltb 1 (length e.raw_errors)
      then str_append " (previously: " (
          str_append
            (join "; " (map (λ r. r.message) (take (length e.raw_errors - 1) e.raw_errors))) ")")
      else "" in
    str_append e.final.message suffix

-- What a Callback answers.
pub record Verdict : Type 0 where
  pub keep_trying : Bool
  pub replacement : Option Error

abbrev pub Callback : Type 0
Callback = ℕ → Error → Verdict

-- A negative bound lets no attempt pass, as 0 does.
unfoldable pub max_retries : ℕ → Callback
max_retries max n err = record { keep_trying = ltb n max; replacement = none }

pub always_retry : Callback
always_retry n err = record { keep_trying = true; replacement = none }

-- What `Endpoint` of a balancer returns, where the endpoint is used only without an error.
pub data Balanced (E : Type 0) : Type 0 where
  balanced : E → Balanced E
  refused : Error → Balanced E

-- What the select of a round receives: Done, with the context's error, or the goroutine's result.
pub data Arrival : Type 0 where
  done : Error → Arrival
  settled : Arrival

-- How the endpoint returns. `waiting` means that the schedule ends before that.
pub data Outcome (Res : Type 0) : Type 0 where
  response : Res → Outcome Res
  context_error : Error → Outcome Res
  exhausted : RetryError → Outcome Res
  waiting : Outcome Res

-- What the goroutine of a round sends.
pub data Attempt (Res : Type 0) : Type 0 where
  responses : Res → Attempt Res
  errs : Error → Attempt Res

-- if replacement != nil { err = replacement }
unfoldable pub replaced : Option Error → Error → Error
replaced none err = err
replaced (some replacement) err = replacement

module _ {W Ctx Req Res : Type 0} (b : Act W (Balanced (Endpoint W Ctx Req Res))) where
  unfoldable pub attempt : Ctx → Req → Act W (Attempt Res)
  attempt ctx request w =
      let (e, w') = b w in
      elim e [
        | refused err ↦ (errs err, w')
        | balanced endpoint ↦
            let (reply, w'') = endpoint ctx request w' in
            elim reply.err [ some err ↦ (errs err, w'') | none ↦ (responses reply.response, w'') ]
      ]

  -- Round `i`, with the errors that came before.
  unfoldable pub rounds : Callback → Ctx → Req → List Arrival → ℕ → List Error → Act W (Outcome Res)
  rounds cb ctx request [] i raw w = (waiting, w)
  rounds cb ctx request (done err ∷ schedule) i raw w = (context_error err, w)
  rounds cb ctx request (settled ∷ schedule) i raw w =
      let (result, w') = attempt ctx request w in
      elim result [
        | responses res ↦ (response res, w')
        | errs err ↦
            let verdict = cb i err in
            let more = rounds cb ctx request schedule (i + 1) (raw ++ err ∷ []) w' in
            if verdict.keep_trying then more else (
              exhausted (record {
                raw_errors = raw ++ err ∷ [];
                final = replaced verdict.replacement err;
              }),
              w',
            )
      ]

  -- A nil callback is `none`.
  unfoldable pub retry_with_callback :
      Option Callback → Ctx → Req → List Arrival → Act W (Outcome Res)
  retry_with_callback none ctx request schedule = rounds always_retry ctx request schedule 1 []
  retry_with_callback (some cb) ctx request schedule = rounds cb ctx request schedule 1 []

  unfoldable pub retry : ℕ → Ctx → Req → List Arrival → Act W (Outcome Res)
  retry max = retry_with_callback (some (max_retries max))
