-- ===== src/Transport/Nats/Publisher.antt =====
-- transport/nats/publisher.go. Of a message the subject and the data (`payload`) are written out, and `M` stands
-- for the rest. Of other packages, `Library` has context.WithTimeout with the call of its cancel,
-- and RequestWithContext, whose answer is a message of its own.
use kit_go.Prelude.{ℤ, pos, String, Bytes, List, [], ◌∷◌, ◌++◌, Option, none, some}
use kit_go.Go.{Error, Act}
use kit_go.Endpoint.{Endpoint}
use kit_go.Transport.Common.{Decoded, apply_options, run_before}

pub record Msg (M : Type 0) : Type 0 where
  pub subject : String
  pub payload : Bytes
  pub rest : M

-- A message as it is left, and an error.
pub record Encoded (M : Type 0) : Type 0 where
  pub msg : Msg M
  pub err : Option Error

-- RequestFunc, on the message that it may change.
abbrev pub RequestFunc : Type 0 → Type 0 → Type 0 → Type 0
RequestFunc W Ctx M = Ctx → Msg M → Act W (Ctx × Msg M)

-- The answer of the connection: a message or an error.
pub data Answer (M : Type 0) : Type 0 where
  answered : Msg M → Answer M
  failed : Error → Answer M

pub record Library (W Ctx M : Type 0) : Type 0 where
  pub with_timeout : ℤ → Ctx → Ctx
  pub cancel : W → W
  pub request : Ctx → String → Bytes → Act W (Answer M)

pub record Publisher (W Ctx Req Res M : Type 0) : Type 0 where
  pub subject : String
  pub enc : Ctx → Msg M → Req → Act W (Encoded M)
  pub dec : Ctx → Msg M → Act W (Decoded Res)
  pub before : List (RequestFunc W Ctx M)
  pub after : List (Ctx → Msg M → Act W Ctx)
  pub timeout : ℤ

-- for _, f := range p.before
pub run_request_funcs : {W Ctx M : Type 0} → List (RequestFunc W Ctx M) → RequestFunc W Ctx M
run_request_funcs [] ctx msg w = ((ctx, msg), w)
run_request_funcs (f ∷ fs) ctx msg w = let (r, w') = f ctx msg w in run_request_funcs fs r.0 r.1 w'

-- EncodeJSONRequest, over json.Marshal.
pub encode_json_request :
    {W Ctx Req M : Type 0} → (Req → Bytes × Option Error) → Ctx → Msg M → Req → Act W (Encoded M)
encode_json_request marshal ctx msg request w =
    let (b, err) = marshal request in
    elim err [
      | some e ↦ (record { msg = msg; err = some e }, w)
      | none ↦ (record { msg = record msg { payload = b }; err = none }, w)
    ]

module _ {W Ctx Req Res M : Type 0} where
  -- NewPublisher and its options; the timeout is 10 * time.Second.
  pub new_publisher :
      String
      → (Ctx → Msg M → Req → Act W (Encoded M))
      → (Ctx → Msg M → Act W (Decoded Res))
      → List (Publisher W Ctx Req Res M → Publisher W Ctx Req Res M)
      → Publisher W Ctx Req Res M
  new_publisher subject enc dec options = apply_options options (record {
    subject = subject;
    enc = enc;
    dec = dec;
    before = [];
    after = [];
    timeout = pos 10_000_000_000;
  })

  pub publisher_before :
      List (RequestFunc W Ctx M) → Publisher W Ctx Req Res M → Publisher W Ctx Req Res M
  publisher_before before p = record p { before = p.before ++ before }

  pub publisher_after :
      List (Ctx → Msg M → Act W Ctx) → Publisher W Ctx Req Res M → Publisher W Ctx Req Res M
  publisher_after after p = record p { after = p.after ++ after }

  pub publisher_timeout : ℤ → Publisher W Ctx Req Res M → Publisher W Ctx Req Res M
  publisher_timeout timeout p = record p { timeout = timeout }

  -- The endpoint up to the deferred call of cancel, with the context that has the timeout and an
  -- empty message to the subject. The zero value of the response type is a parameter.
  pub call :
      Library W Ctx M
      → Res
      → Publisher W Ctx Req Res M
      → Ctx
      → Msg M
      → Req
      → Act W (record { response : Res; err : Option Error })
  unfolding run_request_funcs
  call lib zero_value p ctx msg request w =
      let (encoded, w₁) = p.enc ctx msg request w in
      elim encoded.err [
        | some err ↦ (record { response = zero_value; err = some err }, w₁)
        | none ↦
            let (r, w₂) = run_request_funcs p.before ctx encoded.msg w₁ in
            let (answer, w₃) = lib.request r.0 r.1.subject r.1.payload w₂ in
            elim answer [
              | failed err ↦ (record { response = zero_value; err = some err }, w₃)
              | answered resp ↦
                  let (ctx', w₄) = run_before p.after r.0 resp w₃ in
                  let (decoded, w₅) = p.dec ctx' resp w₄ in
                  (record { response = decoded.request; err = decoded.err }, w₅)
            ]
      ]

  -- Publisher.Endpoint; `rest` are the zero values of the other fields of a message.
  pub endpoint : Library W Ctx M → Res → M → Publisher W Ctx Req Res M → Endpoint W Ctx Req Res
  unfolding call
  endpoint lib zero_value rest p ctx request w =
      let msg : Msg M = record { subject = p.subject; payload = []; rest = rest } in
      let (reply, w') = call lib zero_value p (lib.with_timeout p.timeout ctx) msg request w in
      (reply, lib.cancel w')
