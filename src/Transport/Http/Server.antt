-- ===== src/Transport/Http/Server.antt =====
-- transport/http/server.go. A request is passed on as `Raw`; the functions that a server is given
-- act on the outside, and those that get the writer are programs on it. Panics are not modelled.
pub mod Answered
pub mod Finalizers
pub mod Failures
use kit_go.Prelude.{
  ℕ, String, List, [], ◌∷◌, ◌++◌, Option, none, some, ◌==◌, is_empty, if◌then◌else◌,
}
use kit_go.Go.{Error, Act}
use kit_go.Endpoint.{Endpoint}
use kit_go.Transport.Common.{Decoded, apply_options, run_before}
use kit_go.Transport.Http.Writer.{
  Sent, ResponseWriter, Intercepted, new_intercepted, Program, done, set_header, add_header,
  write_header, write, outside, ◌>>=◌, ◌>>◌, exec, exec_intercepted, status_ok,
}

pub record Server (W Ctx Req Res Raw : Type 0) : Type 0 where
  pub e : Endpoint W Ctx Req Res
  pub dec : Ctx → Raw → Act W (Decoded Req)
  pub enc : Ctx → Res → Program W (Option Error)
  pub before : List (Ctx → Raw → Act W Ctx)
  pub after : List (Ctx → Program W Ctx)
  pub error_encoder : Ctx → Error → Program W (Unit {0})
  pub finalizer : List (Ctx → ℕ → Raw → Act W (Unit {0}))
  pub error_handler : Ctx → Error → Act W (Unit {0})

-- A call that does not touch the writer.
unfoldable pub lift : {W A : Type 0} → Act W A → Program W A
lift m = outside (λ w. (m w).1) (λ w. done (m w).0)

module _ {W Ctx Raw : Type 0} where
  -- for _, f := range s.finalizer
  pub run_finalizers : List (Ctx → ℕ → Raw → Act W (Unit {0})) → Ctx → ℕ → Raw → W → W
  run_finalizers [] ctx code r w = w
  run_finalizers (f ∷ fs) ctx code r w = run_finalizers fs ctx code r (f ctx code r w).1

-- for _, f := range s.after
pub run_after : {W Ctx : Type 0} → List (Ctx → Program W Ctx) → Ctx → Program W Ctx
run_after [] ctx = done ctx
run_after (f ∷ fs) ctx = f ctx >>= run_after fs

module _ {W Ctx Req Res Raw : Type 0} where
  -- NewServer, over the two defaults that it takes, and its options.
  pub new_server :
      (Ctx → Error → Program W (Unit {0}))
      → (Ctx → Error → Act W (Unit {0}))
      → Endpoint W Ctx Req Res
      → (Ctx → Raw → Act W (Decoded Req))
      → (Ctx → Res → Program W (Option Error))
      → List (Server W Ctx Req Res Raw → Server W Ctx Req Res Raw)
      → Server W Ctx Req Res Raw
  new_server default_encoder nop_handler e dec enc options = apply_options options (record {
    e = e;
    dec = dec;
    enc = enc;
    before = [];
    after = [];
    error_encoder = default_encoder;
    finalizer = [];
    error_handler = nop_handler;
  })

  pub server_before :
      List (Ctx → Raw → Act W Ctx) → Server W Ctx Req Res Raw → Server W Ctx Req Res Raw
  server_before before s = record s { before = s.before ++ before }

  pub server_after :
      List (Ctx → Program W Ctx) → Server W Ctx Req Res Raw → Server W Ctx Req Res Raw
  server_after after s = record s { after = s.after ++ after }

  pub server_error_encoder :
      (Ctx → Error → Program W (Unit {0})) → Server W Ctx Req Res Raw → Server W Ctx Req Res Raw
  server_error_encoder ee s = record s { error_encoder = ee }

  pub server_error_handler :
      (Ctx → Error → Act W (Unit {0})) → Server W Ctx Req Res Raw → Server W Ctx Req Res Raw
  server_error_handler handler s = record s { error_handler = handler }

  pub server_finalizer :
      List (Ctx → ℕ → Raw → Act W (Unit {0})) → Server W Ctx Req Res Raw → Server W Ctx Req Res Raw
  server_finalizer f s = record s { finalizer = s.finalizer ++ f }

  -- s.errorHandler.Handle, s.errorEncoder and return, with the context of the moment.
  pub fail : Server W Ctx Req Res Raw → Ctx → Error → Program W Ctx
  unfolding lift
  fail s ctx err = do lift (s.error_handler ctx err); s.error_encoder ctx err; done ctx

  -- if err := s.enc(ctx, w, response); err != nil
  fail_if : Server W Ctx Req Res Raw → Ctx → Option Error → Program W Ctx
  unfolding fail
  fail_if s ctx none = done ctx
  fail_if s ctx (some err) = fail s ctx err

  encode : Server W Ctx Req Res Raw → Ctx → Res → Program W Ctx
  unfolding fail_if
  encode s ctx response = s.enc ctx response >>= fail_if s ctx

  -- ServeHTTP between the installation of the finalizers and their run; it returns the context
  -- that the variable `ctx` holds at the end.
  pub respond : Server W Ctx Req Res Raw → Ctx → Raw → Program W Ctx
  unfolding lift
  respond s ctx r = do
    ctx₁ ← lift (run_before s.before ctx r)
    decoded ← lift (s.dec ctx₁ r)
    elim decoded.err [
      | some err ↦ fail s ctx₁ err
      | none ↦ do
        reply ← lift (s.e ctx₁ decoded.request)
        elim reply.err [
          | some err ↦ fail s ctx₁ err
          | none ↦ do ctx₂ ← run_after s.after ctx₁; encode s ctx₂ reply.response
        ]
    ]

  -- ServeHTTP. `with_response` puts the response's headers and its size into a context.
  pub serve_http :
      ResponseWriter W → (W → ℕ → Ctx → Ctx) → Server W Ctx Req Res Raw → Ctx → Raw → W → W
  serve_http writer with_response s ctx r w =
      if is_empty s.finalizer
      then (exec writer (respond s ctx r) w).1
      else (let (ctx', state) = exec_intercepted writer (respond s ctx r) (w, new_intercepted) in
          run_finalizers s.finalizer (with_response state.0 state.1.written ctx') state.1.code r
            state.0)

-- What an error value offers besides its text: MarshalJSON, Headers and StatusCode.
pub record ErrorView : Type 0 where
  pub text : List ℕ
  pub marshal_json : Option (Option (List ℕ))
  pub headers : Option (List (String × List String))
  pub status_code : Option ℕ

pub or_default : ℕ → Option ℕ → ℕ
or_default d none = d
or_default d (some code) = code

content : ErrorView → String × List ℕ
content view = elim view.marshal_json [
  | none ↦ ("text/plain; charset=utf-8", view.text)
  | some none ↦ ("text/plain; charset=utf-8", view.text)
  | some (some body) ↦ ("application/json; charset=utf-8", body)
]

module _ {W A : Type 0} where
  add_values : String → List String → Program W A → Program W A
  add_values k [] p = p
  add_values k (v ∷ vs) p = add_header k v (add_values k vs p)

  add_headers : List (String × List String) → Program W A → Program W A
  unfolding add_values
  add_headers [] p = p
  add_headers ((k, values) ∷ rest) p = add_values k values (add_headers rest p)

  -- The headers of a Headerer.
  with_headers : Option (List (String × List String)) → Program W A → Program W A
  with_headers none p = p
  with_headers (some headers) p = add_headers headers p

module _ {W : Type 0} where
  -- DefaultErrorEncoder, on the methods of the error.
  pub default_error_encoder : ErrorView → Program W (Unit {0})
  unfolding add_headers with_headers or_default content
  default_error_encoder view =
      let (content_type, body) = content view in
      set_header "Content-Type" content_type (
        with_headers view.headers
          (write_header (or_default 500 view.status_code) (write body (λ sent. done tt))))

  -- EncodeJSONResponse, with the json encoder's writing as a program; the response's headers and
  -- status code are those of its methods, if it has them.
  pub encode_json_response :
      Option (List (String × List String))
      → Option ℕ
      → Program W (Option Error)
      → Program W (Option Error)
  unfolding add_headers with_headers or_default
  encode_json_response headers status_code encode =
      let code = or_default status_ok status_code in
      set_header "Content-Type" "application/json; charset=utf-8"
        (with_headers headers (write_header code (if code == 204 then done none else encode)))

-- SetResponseHeader of transport/http/request_response_funcs.go
pub set_response_header : {W Ctx : Type 0} → String → String → Ctx → Program W Ctx
set_response_header key val ctx = set_header key val (done ctx)

-- SetContentType
pub set_content_type : {W Ctx : Type 0} → String → Ctx → Program W Ctx
unfolding set_response_header
set_content_type content_type = set_response_header "Content-Type" content_type
