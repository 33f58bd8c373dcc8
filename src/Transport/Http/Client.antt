-- ===== src/Transport/Http/Client.antt =====
-- transport/http/client.go. A request and a response are pointers, whose contents are in the
-- outside `W`. Of other packages, `new_request` is http.NewRequest for the method and the target,
-- `cancel` is the function that context.WithCancel returns, and `Remote` has the rest.
pub mod Closed
use kit_go.Prelude.{ℕ, Bool, List, [], ◌∷◌, ◌++◌, Option, none, some, is_empty, if◌then◌else◌}
use kit_go.Go.{Error, Act}
use kit_go.Endpoint.{Endpoint}
use kit_go.Transport.Common.{apply_options, run_before, run_all}

-- A pointer and an error.
pub data Made (A : Type 0) : Type 0 where
  made : A → Made A
  failed : Error → Made A

pub record Client (W Ctx Req Res HttpReq HttpRes : Type 0) : Type 0 where
  pub client : Ctx → HttpReq → Act W (Made HttpRes)
  pub req : Ctx → Req → Act W (Made HttpReq)
  pub dec : Ctx → HttpRes → Act W (record { response : Res; err : Option Error })
  pub before : List (Ctx → HttpReq → Act W Ctx)
  pub after : List (Ctx → HttpRes → Act W Ctx)
  pub finalizer : List (Ctx → Option Error → Act W (Unit {0}))
  pub buffered_stream : Bool

-- The body of a response is closed, or replaced by one whose Close also cancels.
pub record Remote (W Ctx HttpRes : Type 0) : Type 0 where
  pub cancel : W → W
  pub close_body : HttpRes → W → W
  pub body_with_cancel : HttpRes → W → W
  pub with_response : HttpRes → Ctx → Ctx

-- How a call ends: with the context and the response that the finalizers see.
pub record Ended (Ctx Res HttpRes : Type 0) : Type 0 where
  pub ctx : Ctx
  pub resp : Option HttpRes
  pub response : Res
  pub err : Option Error

-- The context of the finalizers.
final_ctx : {W Ctx Res HttpRes : Type 0} → Remote W Ctx HttpRes → Ended Ctx Res HttpRes → Ctx
final_ctx remote ended = elim ended.resp [
  | none ↦ ended.ctx
  | some resp ↦ remote.with_response resp ended.ctx
]

-- makeCreateRequestFunc, with an encoder that changes the request.
pub make_create_request_func :
    {W Ctx Req HttpReq : Type 0}
    → Act W (Made HttpReq)
    → (Ctx → HttpReq → Req → Act W (Option Error))
    → Ctx
    → Req
    → Act W (Made HttpReq)
make_create_request_func new_request enc ctx request w =
    let (r, w') = new_request w in
    elim r [
      | failed err ↦ (failed err, w')
      | made req ↦
          let (err, w'') = enc ctx req request w' in
          elim err [ some e ↦ (failed e, w'') | none ↦ (made req, w'') ]
    ]

module _ {W Ctx Req Res HttpReq HttpRes : Type 0} where
  -- NewExplicitClient, over http.DefaultClient, and its options.
  pub new_explicit_client :
      (Ctx → HttpReq → Act W (Made HttpRes))
      → (Ctx → Req → Act W (Made HttpReq))
      → (Ctx → HttpRes → Act W (record { response : Res; err : Option Error }))
      → List (Client W Ctx Req Res HttpReq HttpRes → Client W Ctx Req Res HttpReq HttpRes)
      → Client W Ctx Req Res HttpReq HttpRes
  new_explicit_client default_client req dec options = apply_options options (record {
    client = default_client;
    req = req;
    dec = dec;
    before = [];
    after = [];
    finalizer = [];
    buffered_stream = Bool.false;
  })

  pub set_client :
      (Ctx → HttpReq → Act W (Made HttpRes))
      → Client W Ctx Req Res HttpReq HttpRes
      → Client W Ctx Req Res HttpReq HttpRes
  set_client client c = record c { client = client }

  pub client_before :
      List (Ctx → HttpReq → Act W Ctx)
      → Client W Ctx Req Res HttpReq HttpRes
      → Client W Ctx Req Res HttpReq HttpRes
  client_before before c = record c { before = c.before ++ before }

  pub client_after :
      List (Ctx → HttpRes → Act W Ctx)
      → Client W Ctx Req Res HttpReq HttpRes
      → Client W Ctx Req Res HttpReq HttpRes
  client_after after c = record c { after = c.after ++ after }

  pub client_finalizer :
      List (Ctx → Option Error → Act W (Unit {0}))
      → Client W Ctx Req Res HttpReq HttpRes
      → Client W Ctx Req Res HttpReq HttpRes
  client_finalizer f c = record c { finalizer = c.finalizer ++ f }

  pub buffered_stream :
      Bool → Client W Ctx Req Res HttpReq HttpRes → Client W Ctx Req Res HttpReq HttpRes
  buffered_stream buffered c = record c { buffered_stream = buffered }

  -- The deferred calls of a response that is not buffered, the last one first.
  close : Remote W Ctx HttpRes → Client W Ctx Req Res HttpReq HttpRes → HttpRes → W → W
  close remote c resp w = if c.buffered_stream then w else remote.close_body resp (remote.cancel w)

  -- The endpoint up to its finalizers. The zero value of the response type is a parameter.
  pub call :
      Res
      → Remote W Ctx HttpRes
      → Client W Ctx Req Res HttpReq HttpRes
      → Ctx
      → Req
      → Act W (Ended Ctx Res HttpRes)
  unfolding close
  call zero_value remote c ctx request w =
      let (r, w₁) = c.req ctx request w in
      elim r [
        | failed err ↦ (
          record { ctx = ctx; resp = none; response = zero_value; err = some err },
          remote.cancel w₁,
        )
        | made req ↦
            let (ctx₁, w₂) = run_before c.before ctx req w₁ in
            let (r', w₃) = c.client ctx₁ req w₂ in
            elim r' [
              | failed err ↦ (
                record { ctx = ctx₁; resp = none; response = zero_value; err = some err },
                remote.cancel w₃,
              )
              | made resp ↦
                  let w₄ = if c.buffered_stream then remote.body_with_cancel resp w₃ else w₃ in
                  let (ctx₂, w₅) = run_before c.after ctx₁ resp w₄ in
                  let (decoded, w₆) = c.dec ctx₂ resp w₅ in
                  (
                    record {
                      ctx = ctx₂;
                      resp = some resp;
                      response = decoded.response;
                      err = decoded.err;
                    },
                    close remote c resp w₆,
                  )
            ]
      ]

  -- Client.Endpoint
  pub client_endpoint :
      Res → Remote W Ctx HttpRes → Client W Ctx Req Res HttpReq HttpRes → Endpoint W Ctx Req Res
  unfolding final_ctx
  client_endpoint zero_value remote c ctx request w =
      let (ended, w') = call zero_value remote c ctx request w in
      (
        record { response = ended.response; err = ended.err },
        run_all c.finalizer (final_ctx remote ended) ended.err w',
      )

  -- NewClient
  pub new_client :
      (Ctx → HttpReq → Act W (Made HttpRes))
      → Act W (Made HttpReq)
      → (Ctx → HttpReq → Req → Act W (Option Error))
      → (Ctx → HttpRes → Act W (record { response : Res; err : Option Error }))
      → List (Client W Ctx Req Res HttpReq HttpRes → Client W Ctx Req Res HttpReq HttpRes)
      → Client W Ctx Req Res HttpReq HttpRes
  unfolding make_create_request_func new_explicit_client
  new_client default_client new_request enc dec options =
      new_explicit_client default_client (make_create_request_func new_request enc) dec options
