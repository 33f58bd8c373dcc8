-- ===== src/Transport/Jsonrpc/Client.antt =====
-- transport/http/jsonrpc/client.go. A request and a response of net/http are pointers, whose
-- contents are in the outside `W`; `J` stands for the interface{} of a request's id.
pub mod Ids
pub mod Closed
pub mod Decoded
use kit_go.Prelude.{
  ℕ, ◌+◌, ◌-◌, ◌%◌, ◌^◌, String, Bytes, Bool, List, [], ◌++◌, Option, none, some, if◌then◌else◌,
}
use kit_go.Go.{Act}
use kit_go.Transport.Common.{apply_options, run_before}
use kit_go.Transport.Jsonrpc.{Failure, rpc, Response, version}
use kit_go.Transport.Jsonrpc.Server.{Handled}

-- clientRequest
pub record ClientRequest (J : Type 0) : Type 0 where
  pub jsonrpc : String
  pub method : String
  pub params : Bytes
  pub id : J

-- A pointer or an error. A response that comes with an error is left out: its body is closed by then.
pub data Got (A : Type 0) : Type 0 where
  got : A → Got A
  failed : Failure → Got A

-- The field tgt is in `Library`.
pub record Client (W Ctx Req Res HttpReq HttpRes F J : Type 0) : Type 0 where
  pub client : Ctx → HttpReq → Act W (Got HttpRes)
  pub method : String
  pub enc : Ctx → Req → Act W (Handled Bytes)
  pub dec : Ctx → Response F → Act W (Handled Res)
  pub before : List (Ctx → HttpReq → Act W Ctx)
  pub after : List (Ctx → HttpRes → Act W Ctx)
  pub finalizer : Option (Ctx → Option Failure → Act W (Unit {0}))
  pub request_id : Act W J
  pub buffered_stream : Bool

-- Of other packages: `new_request` is http.NewRequest on the target; `set_body` sets the header
-- Content-Type and the body to the request as JSON; `decode_body` decodes a body from JSON; the
-- rest is what package context does, and Close.
pub record Library (W Ctx HttpReq HttpRes F J : Type 0) : Type 0 where
  pub new_request : Act W (Got HttpReq)
  pub set_body : HttpReq → ClientRequest J → Act W (Option Failure)
  pub decode_body : HttpRes → Act W (Handled (Response F))
  pub cancel : W → W
  pub close_body : HttpRes → W → W
  pub with_method : String → Ctx → Ctx
  pub with_response : HttpRes → Ctx → Ctx

-- DefaultResponseDecoder, over json.Unmarshal; it returns the zero value beside an error.
pub default_response_decoder :
    {W Ctx Res F : Type 0} → Res → (Bytes → Handled Res) → Ctx → Response F → Act W (Handled Res)
default_response_decoder zero_value unmarshal ctx res w = elim res.error [
  | some e ↦ (record { value = zero_value; err = some (rpc e) }, w)
  | none ↦ (unmarshal res.result, w)
]

-- The counter of an autoIncrementID; NewAutoIncrementID sets it to init - 1.
pub new_auto_increment_id : ℕ → ℕ
new_auto_increment_id init = (init + (2 ^ 64 - 1)) % 2 ^ 64

-- Generate, on the counter: atomic.AddUint64.
pub generate : Act ℕ ℕ
generate v = let id = (v + 1) % 2 ^ 64 in (id, id)

-- How a call ends: with the context and the response that the finalizer sees.
pub record Ended (Ctx Res HttpRes : Type 0) : Type 0 where
  pub ctx : Ctx
  pub resp : Option HttpRes
  pub response : Res
  pub err : Option Failure

-- The context of the finalizer.
final_ctx :
    {W Ctx Res HttpReq HttpRes F J : Type 0}
    → Library W Ctx HttpReq HttpRes F J
    → Ended Ctx Res HttpRes
    → Ctx
final_ctx lib ended = elim ended.resp [
  | none ↦ ended.ctx
  | some resp ↦ lib.with_response resp ended.ctx
]

module _ {W Ctx Req Res HttpReq HttpRes F J : Type 0} where
  -- NewClient, over http.DefaultClient, the default encoder and decoder, and NewAutoIncrementID(0).
  pub new_client :
      (Ctx → HttpReq → Act W (Got HttpRes))
      → (Ctx → Req → Act W (Handled Bytes))
      → (Ctx → Response F → Act W (Handled Res))
      → Act W J
      → String
      → List (Client W Ctx Req Res HttpReq HttpRes F J → Client W Ctx Req Res HttpReq HttpRes F J)
      → Client W Ctx Req Res HttpReq HttpRes F J
  new_client default_client enc dec auto_increment method options = apply_options options (record {
    client = default_client;
    method = method;
    enc = enc;
    dec = dec;
    before = [];
    after = [];
    finalizer = none;
    request_id = auto_increment;
    buffered_stream = Bool.false;
  })

  pub set_client :
      (Ctx → HttpReq → Act W (Got HttpRes))
      → Client W Ctx Req Res HttpReq HttpRes F J
      → Client W Ctx Req Res HttpReq HttpRes F J
  set_client client c = record c { client = client }

  pub client_before :
      List (Ctx → HttpReq → Act W Ctx)
      → Client W Ctx Req Res HttpReq HttpRes F J
      → Client W Ctx Req Res HttpReq HttpRes F J
  client_before before c = record c { before = c.before ++ before }

  pub client_after :
      List (Ctx → HttpRes → Act W Ctx)
      → Client W Ctx Req Res HttpReq HttpRes F J
      → Client W Ctx Req Res HttpReq HttpRes F J
  client_after after c = record c { after = c.after ++ after }

  pub client_finalizer :
      (Ctx → Option Failure → Act W (Unit {0}))
      → Client W Ctx Req Res HttpReq HttpRes F J
      → Client W Ctx Req Res HttpReq HttpRes F J
  client_finalizer f c = record c { finalizer = some f }

  pub client_request_encoder :
      (Ctx → Req → Act W (Handled Bytes))
      → Client W Ctx Req Res HttpReq HttpRes F J
      → Client W Ctx Req Res HttpReq HttpRes F J
  client_request_encoder enc c = record c { enc = enc }

  pub client_response_decoder :
      (Ctx → Response F → Act W (Handled Res))
      → Client W Ctx Req Res HttpReq HttpRes F J
      → Client W Ctx Req Res HttpReq HttpRes F J
  client_response_decoder dec c = record c { dec = dec }

  pub client_request_id_generator :
      Act W J → Client W Ctx Req Res HttpReq HttpRes F J → Client W Ctx Req Res HttpReq HttpRes F J
  client_request_id_generator g c = record c { request_id = g }

  pub buffered_stream :
      Bool → Client W Ctx Req Res HttpReq HttpRes F J → Client W Ctx Req Res HttpReq HttpRes F J
  buffered_stream buffered c = record c { buffered_stream = buffered }

  -- A response that is no longer needed.
  close :
      Library W Ctx HttpReq HttpRes F J → Client W Ctx Req Res HttpReq HttpRes F J → HttpRes → W → W
  close lib c resp w = if c.buffered_stream then w else lib.close_body resp w

  -- From the response on.
  receive :
      Res
      → Library W Ctx HttpReq HttpRes F J
      → Client W Ctx Req Res HttpReq HttpRes F J
      → Ctx
      → HttpRes
      → Act W (Ended Ctx Res HttpRes)
  unfolding close
  receive zero_value lib c ctx resp w =
      let (ctx₁, w₁) = run_before c.after ctx resp w in
      let (body, w₂) = lib.decode_body resp w₁ in
      elim body.err [
        | some err ↦ (
          record { ctx = ctx₁; resp = some resp; response = zero_value; err = some err },
          close lib c resp w₂,
        )
        | none ↦
            let (decoded, w₃) = c.dec ctx₁ body.value w₂ in
            (
              record { ctx = ctx₁; resp = some resp; response = decoded.value; err = decoded.err },
              close lib c resp w₃,
            )
      ]

  -- From the request's body on.
  send :
      Res
      → Library W Ctx HttpReq HttpRes F J
      → Client W Ctx Req Res HttpReq HttpRes F J
      → Ctx
      → HttpReq
      → ClientRequest J
      → Act W (Ended Ctx Res HttpRes)
  unfolding receive
  send zero_value lib c ctx req rpc_req w =
      let (encoded, w₁) = lib.set_body req rpc_req w in
      elim encoded [
        | some err ↦ (record { ctx = ctx; resp = none; response = zero_value; err = some err }, w₁)
        | none ↦
            let (ctx₁, w₂) = run_before c.before ctx req w₁ in
            let (sent, w₃) = c.client ctx₁ req w₂ in
            elim sent [
              | failed err ↦
                  (record { ctx = ctx₁; resp = none; response = zero_value; err = some err }, w₃)
              | got resp ↦ receive zero_value lib c ctx₁ resp w₃
            ]
      ]

  -- The endpoint up to the finalizer.
  pub call :
      Res
      → Library W Ctx HttpReq HttpRes F J
      → Client W Ctx Req Res HttpReq HttpRes F J
      → Ctx
      → Req
      → Act W (Ended Ctx Res HttpRes)
  unfolding send
  call zero_value lib c ctx request w =
      let ctx₀ = lib.with_method c.method ctx in
      let (params, w₁) = c.enc ctx₀ request w in
      elim params.err [
        | some err ↦ (record { ctx = ctx₀; resp = none; response = zero_value; err = some err }, w₁)
        | none ↦
            let (id, w₂) = c.request_id w₁ in
            let (made, w₃) = lib.new_request w₂ in
            elim made [
              | failed err ↦
                  (record { ctx = ctx₀; resp = none; response = zero_value; err = some err }, w₃)
              | got req ↦
                  send zero_value lib c ctx₀ req
                    (record {
                      jsonrpc = version;
                      method = c.method;
                      params = params.value;
                      id = id;
                    })
                    w₃
            ]
      ]

  finalize :
      Library W Ctx HttpReq HttpRes F J
      → Client W Ctx Req Res HttpReq HttpRes F J
      → Ended Ctx Res HttpRes
      → W
      → W
  unfolding final_ctx
  finalize lib c ended w = elim c.finalizer [
    | none ↦ w
    | some f ↦ (f (final_ctx lib ended) ended.err w).1
  ]

  -- Client.Endpoint: the finalizer runs before the context is cancelled.
  pub client_endpoint :
      Res
      → Library W Ctx HttpReq HttpRes F J
      → Client W Ctx Req Res HttpReq HttpRes F J
      → Ctx
      → Req
      → Act W (Handled Res)
  unfolding call finalize
  client_endpoint zero_value lib c ctx request w =
      let (ended, w') = call zero_value lib c ctx request w in
      (record { value = ended.response; err = ended.err }, lib.cancel (finalize lib c ended w'))
