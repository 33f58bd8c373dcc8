-- ===== src/Transport/Grpc.antt =====
-- transport/grpc/server.go. Metadata is an association list; `from_incoming`, `send_header` and
-- `set_trailer` are functions of the grpc packages, which are parameters.
pub mod Answers
pub mod Client
use kit_go.Prelude.{String, List, [], ◌∷◌, ◌++◌, Option, none, some, is_empty, if◌then◌else◌}
use kit_go.Go.{Error, Act}
use kit_go.Endpoint.{Endpoint}
use kit_go.Transport.Common.{Decoded, apply_options, run_before, run_all}

abbrev pub Metadata : Type 0
Metadata = List (String × List String)

-- What an EncodeResponseFunc returns.
pub record Encoded (Out : Type 0) : Type 0 where
  pub out : Out
  pub err : Option Error

-- The three results of ServeGRPC, where a nil response is `none`.
pub record Served (Ctx Out : Type 0) : Type 0 where
  pub retctx : Ctx
  pub resp : Option Out
  pub err : Option Error

pub record Server (W Ctx Req Res In Out : Type 0) : Type 0 where
  pub e : Endpoint W Ctx Req Res
  pub dec : Ctx → In → Act W (Decoded Req)
  pub enc : Ctx → Res → Act W (Encoded Out)
  pub before : List (Ctx → Metadata → Act W Ctx)
  pub after : List (Ctx → Metadata × Metadata → Act W (Ctx × Metadata × Metadata))
  pub finalizer : List (Ctx → Option Error → Act W (Unit {0}))
  pub error_handler : Ctx → Error → Act W (Unit {0})

-- The functions of the grpc packages that the server calls.
pub record Library (W Ctx : Type 0) : Type 0 where
  pub from_incoming : Ctx → Option Metadata
  pub send_header : Ctx → Metadata → Act W (Option Error)
  pub set_trailer : Ctx → Metadata → Act W (Option Error)

abbrev pub or_empty : Option Metadata → Metadata
or_empty none = []
or_empty (some md) = md

-- for _, f := range s.after, with the header and the trailer behind their pointers.
run_after :
    {W Ctx : Type 0}
    → List (Ctx → Metadata × Metadata → Act W (Ctx × Metadata × Metadata))
    → Ctx
    → Metadata × Metadata
    → Act W (Ctx × Metadata × Metadata)
run_after [] ctx mds w = ((ctx, mds.0, mds.1), w)
run_after (f ∷ fs) ctx mds w = let (r, w') = f ctx mds w in run_after fs r.0 (r.1, r.2) w'

-- if len(md) > 0, the call with it, whose error ends ServeGRPC.
send_if :
    {W Ctx : Type 0}
    → (Ctx → Metadata → Act W (Option Error))
    → Ctx
    → Metadata
    → Act W (Option Error)
send_if send ctx md w = if is_empty md then (none, w) else send ctx md w

module _ {W Ctx Req Res In Out : Type 0} where
  -- NewServer, over the handler of errors that it takes by default, and its options.
  pub new_server :
      (Ctx → Error → Act W (Unit {0}))
      → Endpoint W Ctx Req Res
      → (Ctx → In → Act W (Decoded Req))
      → (Ctx → Res → Act W (Encoded Out))
      → List (Server W Ctx Req Res In Out → Server W Ctx Req Res In Out)
      → Server W Ctx Req Res In Out
  new_server nop_handler e dec enc options = apply_options options (record {
    e = e;
    dec = dec;
    enc = enc;
    before = [];
    after = [];
    finalizer = [];
    error_handler = nop_handler;
  })

  pub server_before :
      List (Ctx → Metadata → Act W Ctx) → Server W Ctx Req Res In Out → Server W Ctx Req Res In Out
  server_before before s = record s { before = s.before ++ before }

  pub server_after :
      List (Ctx → Metadata × Metadata → Act W (Ctx × Metadata × Metadata))
      → Server W Ctx Req Res In Out
      → Server W Ctx Req Res In Out
  server_after after s = record s { after = s.after ++ after }

  pub server_error_handler :
      (Ctx → Error → Act W (Unit {0})) → Server W Ctx Req Res In Out → Server W Ctx Req Res In Out
  server_error_handler error_handler s = record s { error_handler = error_handler }

  pub server_finalizer :
      List (Ctx → Option Error → Act W (Unit {0}))
      → Server W Ctx Req Res In Out
      → Server W Ctx Req Res In Out
  server_finalizer f s = record s { finalizer = s.finalizer ++ f }

  -- s.errorHandler.Handle and return ctx, nil, err
  fail : Server W Ctx Req Res In Out → Ctx → Error → Act W (Served Ctx Out)
  fail s ctx err w =
      (record { retctx = ctx; resp = none; err = some err }, (s.error_handler ctx err w).1)

  -- ServeGRPC up to its finalizers.
  pub respond : Library W Ctx → Server W Ctx Req Res In Out → Ctx → In → Act W (Served Ctx Out)
  unfolding fail send_if run_after
  respond lib s ctx req w =
      let (ctx₁, w₁) = run_before s.before ctx (or_empty (lib.from_incoming ctx)) w in
      let (decoded, w₂) = s.dec ctx₁ req w₁ in
      elim decoded.err [
        | some err ↦ fail s ctx₁ err w₂
        | none ↦
            let (reply, w₃) = s.e ctx₁ decoded.request w₂ in
            elim reply.err [
              | some err ↦ fail s ctx₁ err w₃
              | none ↦
                  let (r, w₄) = run_after s.after ctx₁ ([], []) w₃ in
                  let (encoded, w₅) = s.enc r.0 reply.response w₄ in
                  let (header_err, w₆) = send_if lib.send_header r.0 r.1 w₅ in
                  let (trailer_err, w₇) = send_if lib.set_trailer r.0 r.2 w₆ in
                  elim encoded.err [
                    | some err ↦ fail s r.0 err w₅
                    | none ↦ elim header_err [
                      | some err ↦ fail s r.0 err w₆
                      | none ↦ elim trailer_err [
                        | some err ↦ fail s r.0 err w₇
                        | none ↦ (record { retctx = r.0; resp = some encoded.out; err = none }, w₇)
                      ]
                    ]
                  ]
            ]
      ]

  pub serve_grpc : Library W Ctx → Server W Ctx Req Res In Out → Ctx → In → Act W (Served Ctx Out)
  serve_grpc lib s ctx req w =
      let (served, w') = respond lib s ctx req w in
      (served, run_all s.finalizer served.retctx served.err w')

-- Interceptor, where `with_method` puts the full name of the method into a context.
pub interceptor :
    {W Ctx In Out : Type 0}
    → (Ctx → String → Ctx)
    → Ctx
    → In
    → String
    → (Ctx → In → Act W (Encoded Out))
    → Act W (Encoded Out)
interceptor with_method ctx req full_method handler w = handler (with_method ctx full_method) req w
