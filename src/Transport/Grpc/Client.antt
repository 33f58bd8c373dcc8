-- ===== src/Transport/Grpc/Client.antt =====
-- transport/grpc/client.go. Of other packages, `Library` has context.WithCancel's cancel, the value of
-- the request's method and the outgoing metadata in a context, and Invoke, which returns the reply,
-- the header and the trailer.
use Prim.Native.String.{◌++◌ as str_append}
use kit_go.Prelude.{String, List, [], ◌∷◌, ◌++◌, Option, none, some}
use kit_go.Go.{Error, Act}
use kit_go.Endpoint.{Endpoint}
use kit_go.Transport.Common.{Decoded, apply_options, run_before, run_all}
use kit_go.Transport.Grpc.{Metadata, Encoded}

-- A ClientRequestFunc, on the metadata that it may change.
abbrev pub ClientRequestFunc : Type 0 → Type 0 → Type 0
ClientRequestFunc W Ctx = Ctx → Metadata → Act W (Ctx × Metadata)

-- What Invoke leaves in its arguments, or its error.
pub data Invoked (Out : Type 0) : Type 0 where
  invoked : Out → Metadata × Metadata → Invoked Out
  failed : Error → Invoked Out

pub record Library (W Ctx In Out : Type 0) : Type 0 where
  pub cancel : W → W
  pub with_method : String → Ctx → Ctx
  pub new_outgoing_context : Metadata → Ctx → Ctx
  pub invoke : Ctx → String → In → Act W (Invoked Out)

-- The field grpcReply is the type `Out`.
pub record Client (W Ctx Req Res In Out : Type 0) : Type 0 where
  pub method : String
  pub enc : Ctx → Req → Act W (Encoded In)
  pub dec : Ctx → Out → Act W (Decoded Res)
  pub before : List (ClientRequestFunc W Ctx)
  pub after : List (Ctx → Metadata × Metadata → Act W Ctx)
  pub finalizer : List (Ctx → Option Error → Act W (Unit {0}))

-- for _, f := range c.before
unfoldable pub run_request_funcs :
    {W Ctx : Type 0} → List (ClientRequestFunc W Ctx) → ClientRequestFunc W Ctx
run_request_funcs [] ctx md w = ((ctx, md), w)
run_request_funcs (f ∷ fs) ctx md w = let (r, w') = f ctx md w in run_request_funcs fs r.0 r.1 w'

-- How a call ends: with the context and the error that the finalizers see.
pub record Ended (Ctx Res : Type 0) : Type 0 where
  pub ctx : Ctx
  pub response : Res
  pub err : Option Error

module _ {W Ctx Req Res In Out : Type 0} where
  -- NewClient and its options.
  pub new_client :
      String
      → String
      → (Ctx → Req → Act W (Encoded In))
      → (Ctx → Out → Act W (Decoded Res))
      → List (Client W Ctx Req Res In Out → Client W Ctx Req Res In Out)
      → Client W Ctx Req Res In Out
  new_client service_name method enc dec options = apply_options options (record {
    method = str_append "/" (str_append service_name (str_append "/" method));
    enc = enc;
    dec = dec;
    before = [];
    after = [];
    finalizer = [];
  })

  pub client_before :
      List (ClientRequestFunc W Ctx) → Client W Ctx Req Res In Out → Client W Ctx Req Res In Out
  client_before before c = record c { before = c.before ++ before }

  pub client_after :
      List (Ctx → Metadata × Metadata → Act W Ctx)
      → Client W Ctx Req Res In Out
      → Client W Ctx Req Res In Out
  client_after after c = record c { after = c.after ++ after }

  pub client_finalizer :
      List (Ctx → Option Error → Act W (Unit {0}))
      → Client W Ctx Req Res In Out
      → Client W Ctx Req Res In Out
  client_finalizer f c = record c { finalizer = c.finalizer ++ f }

  -- The endpoint up to the finalizers. The zero value of the response type is a parameter.
  pub call :
      Library W Ctx In Out → Res → Client W Ctx Req Res In Out → Ctx → Req → Act W (Ended Ctx Res)
  call lib zero_value c ctx request w =
      let ctx₀ = lib.with_method c.method ctx in
      let (encoded, w₁) = c.enc ctx₀ request w in
      elim encoded.err [
        | some err ↦ (record { ctx = ctx₀; response = zero_value; err = some err }, w₁)
        | none ↦
            let (r, w₂) = run_request_funcs c.before ctx₀ [] w₁ in
            let ctx₁ = lib.new_outgoing_context r.1 r.0 in
            let (reply, w₃) = lib.invoke ctx₁ c.method encoded.out w₂ in
            elim reply [
              | failed err ↦ (record { ctx = ctx₁; response = zero_value; err = some err }, w₃)
              | invoked out meta ↦
                  let (ctx₂, w₄) = run_before c.after ctx₁ meta w₃ in
                  let (decoded, w₅) = c.dec ctx₂ out w₄ in
                  (record { ctx = ctx₂; response = decoded.request; err = decoded.err }, w₅)
            ]
      ]

  -- Client.Endpoint: the finalizers run before the context is cancelled.
  pub client_endpoint :
      Library W Ctx In Out → Res → Client W Ctx Req Res In Out → Endpoint W Ctx Req Res
  unfolding call
  client_endpoint lib zero_value c ctx request w =
      let (ended, w') = call lib zero_value c ctx request w in
      (
        record { response = ended.response; err = ended.err },
        lib.cancel (run_all c.finalizer ended.ctx ended.err w'),
      )
