-- ===== src/Transport/Http/Client/Closed.antt =====
-- Every call of a client that is not buffered cancels its context.
use kit_go.Prelude.{ℕ, suc, ◌≡◌, refl, false, arith, ◌∙◌, ◌⊎◌, inl, inr}
use kit_go.Go.{Error}
use kit_go.Transport.Common.{run_before}
use kit_go.Transport.Http.Client.{Client, Remote, Made, made, failed, call, close}

-- A count of the calls of `cancel`, which nothing else that a client runs touches.
pub record Cancels {W Ctx Req Res HttpReq HttpRes : Type 0} (remote : Remote W Ctx HttpRes)
    (c : Client W Ctx Req Res HttpReq HttpRes) : Type 0 where
  pub count : W → ℕ
  pub count-cancel : (w : W) → count (remote.cancel w) ≡ suc (count w)
  pub count-close_body : (r : HttpRes) (w : W) → count (remote.close_body r w) ≡ count w
  pub count-client : (ctx : Ctx) (r : HttpReq) (w : W) → count (c.client ctx r w).1 ≡ count w
  pub count-req : (ctx : Ctx) (r : Req) (w : W) → count (c.req ctx r w).1 ≡ count w
  pub count-dec : (ctx : Ctx) (r : HttpRes) (w : W) → count (c.dec ctx r w).1 ≡ count w
  pub count-before :
      (ctx : Ctx) (r : HttpReq) (w : W) → count (run_before c.before ctx r w).1 ≡ count w
  pub count-after :
      (ctx : Ctx) (r : HttpRes) (w : W) → count (run_before c.after ctx r w).1 ≡ count w

Made-cases :
    {A : Type 0} (r : Made A) → ((a : A) × (r ≡ made a)) ⊎ ((err : Error) × (r ≡ failed err))
Made-cases (made a) = inl (a, refl)
Made-cases (failed err) = inr (err, refl)

-- However a call ends, a client that is not buffered has cancelled its context exactly once.
pub call_cancels :
    {W Ctx Req Res HttpReq HttpRes : Type 0} (zero_value : Res) (remote : Remote W Ctx HttpRes)
    (c : Client W Ctx Req Res HttpReq HttpRes) (k : Cancels remote c) (ctx : Ctx) (request : Req)
    (w : W)
    → c.buffered_stream ≡ false
    → k.count (call zero_value remote c ctx request w).1 ≡ suc (k.count w)
unfolding call close
call_cancels zero_value remote c k ctx request w b =
    let (r, w₁) = c.req ctx request w in
    elim (Made-cases r) [
      | inr (err, p) ↦ ground (arith, p, k.count-cancel w₁, k.count-req ctx request w)
      | inl (req, p) ↦
          let (ctx₁, w₂) = run_before c.before ctx req w₁ in
          let (r', w₃) = c.client ctx₁ req w₂ in
          let sent : k.count w₃ ≡ k.count w =
            k.count-client ctx₁ req w₂ ∙ k.count-before ctx req w₁ ∙ k.count-req ctx request w in
          elim (Made-cases r') [
            | inr (err, q) ↦ ground (arith, p, q, sent, k.count-cancel w₃)
            | inl (resp, q) ↦
                let (ctx₂, w₅) = run_before c.after ctx₁ resp w₃ in
                let w₆ = (c.dec ctx₂ resp w₅).1 in
                ground (
                  arith,
                  b,
                  p,
                  q,
                  sent,
                  k.count-after ctx₁ resp w₃,
                  k.count-dec ctx₂ resp w₅,
                  k.count-cancel w₆,
                  k.count-close_body resp (remote.cancel w₆),
                )
          ]
    ]
