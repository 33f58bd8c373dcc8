-- ===== src/Transport/Awslambda.antt =====
-- transport/awslambda/handler.go. A payload is a list of bytes, and nil bytes are `none`.
pub mod Errors
use kit_go.Prelude.{ℕ, List, [], ◌∷◌, ◌++◌, Option, none, some}
use kit_go.Go.{Error, Act}
use kit_go.Endpoint.{Endpoint}
use kit_go.Transport.Common.{Decoded, apply_options, run_before, run_all}

-- The two results of Invoke, of an encoder and of an error encoder.
pub record Result : Type 0 where
  pub resp : Option (List ℕ)
  pub err : Option Error

pub record Handler (W Ctx Req Res : Type 0) : Type 0 where
  pub e : Endpoint W Ctx Req Res
  pub dec : Ctx → List ℕ → Act W (Decoded Req)
  pub enc : Ctx → Res → Act W Result
  pub before : List (Ctx → List ℕ → Act W Ctx)
  pub after : List (Ctx → Res → Act W Ctx)
  pub error_encoder : Ctx → Error → Act W Result
  pub finalizer : List (Ctx → Result → Act W (Unit {0}))
  pub error_handler : Ctx → Error → Act W (Unit {0})

-- DefaultErrorEncoder
abbrev pub default_error_encoder : {W Ctx : Type 0} → Ctx → Error → Act W Result
default_error_encoder ctx err w = (record { resp = none; err = some err }, w)

module _ {W Ctx Req Res : Type 0} where
  -- NewHandler, over the handler of errors that it takes by default, and its options.
  pub new_handler :
      (Ctx → Error → Act W (Unit {0}))
      → Endpoint W Ctx Req Res
      → (Ctx → List ℕ → Act W (Decoded Req))
      → (Ctx → Res → Act W Result)
      → List (Handler W Ctx Req Res → Handler W Ctx Req Res)
      → Handler W Ctx Req Res
  new_handler nop_handler e dec enc options = apply_options options (record {
    e = e;
    dec = dec;
    enc = enc;
    before = [];
    after = [];
    error_encoder = default_error_encoder;
    finalizer = [];
    error_handler = nop_handler;
  })

  pub handler_before :
      List (Ctx → List ℕ → Act W Ctx) → Handler W Ctx Req Res → Handler W Ctx Req Res
  handler_before before h = record h { before = h.before ++ before }

  pub handler_after : List (Ctx → Res → Act W Ctx) → Handler W Ctx Req Res → Handler W Ctx Req Res
  handler_after after h = record h { after = h.after ++ after }

  pub handler_error_handler :
      (Ctx → Error → Act W (Unit {0})) → Handler W Ctx Req Res → Handler W Ctx Req Res
  handler_error_handler error_handler h = record h { error_handler = error_handler }

  pub handler_error_encoder :
      (Ctx → Error → Act W Result) → Handler W Ctx Req Res → Handler W Ctx Req Res
  handler_error_encoder ee h = record h { error_encoder = ee }

  pub handler_finalizer :
      List (Ctx → Result → Act W (Unit {0})) → Handler W Ctx Req Res → Handler W Ctx Req Res
  handler_finalizer f h = record h { finalizer = h.finalizer ++ f }

  -- h.errorHandler.Handle, and what h.errorEncoder returns.
  unfoldable pub fail : Handler W Ctx Req Res → Ctx → Error → Act W (Ctx × Result)
  fail h ctx err w =
      let (result, w') = h.error_encoder ctx err (h.error_handler ctx err w).1 in
      ((ctx, result), w')

  -- Invoke up to its finalizers, with the last context.
  unfoldable pub respond : Handler W Ctx Req Res → Ctx → List ℕ → Act W (Ctx × Result)
  unfolding fail
  respond h ctx payload w =
      let (ctx₁, w₁) = run_before h.before ctx payload w in
      let (decoded, w₂) = h.dec ctx₁ payload w₁ in
      elim decoded.err [
        | some err ↦ fail h ctx₁ err w₂
        | none ↦
            let (reply, w₃) = h.e ctx₁ decoded.request w₂ in
            elim reply.err [
              | some err ↦ fail h ctx₁ err w₃
              | none ↦
                  let (ctx₂, w₄) = run_before h.after ctx₁ reply.response w₃ in
                  let (result, w₅) = h.enc ctx₂ reply.response w₄ in
                  elim result.err [ some err ↦ fail h ctx₂ err w₅ | none ↦ ((ctx₂, result), w₅) ]
            ]
      ]

  unfoldable pub invoke : Handler W Ctx Req Res → Ctx → List ℕ → Act W Result
  invoke h ctx payload w =
      let (last, w') = respond h ctx payload w in (last.1, run_all h.finalizer last.0 last.1 w')
