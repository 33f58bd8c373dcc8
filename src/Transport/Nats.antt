-- ===== src/Transport/Nats.antt =====
-- transport/nats/subscriber.go. The connection is part of the outside `W`, and `marshal` and
-- `publish` are the JSON encoder and Conn.Publish, which are other packages. Logging and the
-- cancelling of the context are left out.
pub mod Silent
pub mod Publisher
use kit_go.Prelude.{ℕ, String, List, [], ◌∷◌, ◌++◌, Option, none, some, str_eq, if◌then◌else◌}
use kit_go.Go.{Error, Act}
use kit_go.Endpoint.{Endpoint}
use kit_go.Transport.Common.{Decoded, apply_options, run_before, run_all}

pub record Subscriber (W Ctx Req Res Msg : Type 0) : Type 0 where
  pub e : Endpoint W Ctx Req Res
  pub dec : Ctx → Msg → Act W (Decoded Req)
  pub enc : Ctx → String → Res → Act W (Option Error)
  pub before : List (Ctx → Msg → Act W Ctx)
  pub after : List (Ctx → Act W Ctx)
  pub error_encoder : Ctx → Error → String → Act W (Unit {0})
  pub finalizer : List (Ctx → Msg → Act W (Unit {0}))
  pub error_handler : Ctx → Error → Act W (Unit {0})

-- for _, f := range s.after
run_after : {W Ctx : Type 0} → List (Ctx → Act W Ctx) → Ctx → Act W Ctx
run_after [] ctx w = (ctx, w)
run_after (f ∷ fs) ctx w = let (ctx', w') = f ctx w in run_after fs ctx' w'

module _ {W Ctx Req Res Msg : Type 0} where
  -- NewSubscriber, over the two defaults that it takes, and its options.
  pub new_subscriber :
      (Ctx → Error → String → Act W (Unit {0}))
      → (Ctx → Error → Act W (Unit {0}))
      → Endpoint W Ctx Req Res
      → (Ctx → Msg → Act W (Decoded Req))
      → (Ctx → String → Res → Act W (Option Error))
      → List (Subscriber W Ctx Req Res Msg → Subscriber W Ctx Req Res Msg)
      → Subscriber W Ctx Req Res Msg
  new_subscriber default_encoder nop_handler e dec enc options = apply_options options (record {
    e = e;
    dec = dec;
    enc = enc;
    before = [];
    after = [];
    error_encoder = default_encoder;
    finalizer = [];
    error_handler = nop_handler;
  })

  pub subscriber_before :
      List (Ctx → Msg → Act W Ctx) → Subscriber W Ctx Req Res Msg → Subscriber W Ctx Req Res Msg
  subscriber_before before s = record s { before = s.before ++ before }

  pub subscriber_after :
      List (Ctx → Act W Ctx) → Subscriber W Ctx Req Res Msg → Subscriber W Ctx Req Res Msg
  subscriber_after after s = record s { after = s.after ++ after }

  pub subscriber_error_encoder :
      (Ctx → Error → String → Act W (Unit {0}))
      → Subscriber W Ctx Req Res Msg
      → Subscriber W Ctx Req Res Msg
  subscriber_error_encoder ee s = record s { error_encoder = ee }

  pub subscriber_error_handler :
      (Ctx → Error → Act W (Unit {0})) → Subscriber W Ctx Req Res Msg → Subscriber W Ctx Req Res Msg
  subscriber_error_handler handler s = record s { error_handler = handler }

  -- Unlike the other options this one replaces what was there.
  pub subscriber_finalizer :
      List (Ctx → Msg → Act W (Unit {0}))
      → Subscriber W Ctx Req Res Msg
      → Subscriber W Ctx Req Res Msg
  subscriber_finalizer f s = record s { finalizer = f }

  -- s.errorHandler.Handle and s.errorEncoder
  report : Subscriber W Ctx Req Res Msg → Ctx → Error → String → W → W
  report s ctx err reply w = (s.error_encoder ctx err reply (s.error_handler ctx err w).1).1

  -- The way out with an error, before there is a response.
  fail : Subscriber W Ctx Req Res Msg → Ctx → Error → String → W → W
  unfolding report
  fail s ctx err reply w =
      if str_eq reply "" then (s.error_handler ctx err w).1 else report s ctx err reply w

  -- ServeMsg up to its deferred calls, with the last context.
  pub respond : (Msg → String) → Subscriber W Ctx Req Res Msg → Ctx → Msg → Act W Ctx
  unfolding fail report run_after
  respond reply_of s ctx msg w =
      let (ctx₁, w₁) = run_before s.before ctx msg w in
      let (decoded, w₂) = s.dec ctx₁ msg w₁ in
      elim decoded.err [
        | some err ↦ (ctx₁, fail s ctx₁ err (reply_of msg) w₂)
        | none ↦
            let (reply, w₃) = s.e ctx₁ decoded.request w₂ in
            elim reply.err [
              | some err ↦ (ctx₁, fail s ctx₁ err (reply_of msg) w₃)
              | none ↦
                  let (ctx₂, w₄) = run_after s.after ctx₁ w₃ in
                  let (failed, w₅) = s.enc ctx₂ (reply_of msg) reply.response w₄ in
                  if str_eq (reply_of msg) "" then (ctx₂, w₄) else (elim failed [
                    | none ↦ (ctx₂, w₅)
                    | some err ↦ (ctx₂, report s ctx₂ err (reply_of msg) w₅)
                  ])
            ]
      ]

  pub serve_msg : (Msg → String) → Subscriber W Ctx Req Res Msg → Ctx → Msg → W → W
  unfolding respond
  serve_msg reply_of s background msg w =
      let (ctx, w') = respond reply_of s background msg w in run_all s.finalizer ctx msg w'

module _ {W Ctx : Type 0} (publish : String → List ℕ → Act W (Option Error)) where
  -- EncodeJSONResponse
  pub encode_json_response :
      {Res : Type 0} → (Res → (List ℕ) × Option Error) → Ctx → String → Res → Act W (Option Error)
  encode_json_response marshal ctx reply response w =
      let (b, err) = marshal response in
      elim err [ some e ↦ (some e, w) | none ↦ publish reply b w ]

  -- DefaultErrorEncoder, with `marshal` for the encoding of the response that holds the text.
  pub default_error_encoder :
      (String → (List ℕ) × Option Error) → Ctx → Error → String → Act W (Unit {0})
  default_error_encoder marshal ctx err reply w =
      let (b, failed) = marshal err.message in
      elim failed [ some e ↦ (tt, w) | none ↦ (tt, (publish reply b w).1) ]
