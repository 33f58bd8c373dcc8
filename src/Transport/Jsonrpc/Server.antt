-- ===== src/Transport/Jsonrpc/Server.antt =====
-- transport/http/jsonrpc/server.go and encode_decode.go. What is given the writer is a program on
-- it. `decode_body` and `encode` are json.Decoder on the body and json.Encoder on the writer.
-- Logging is left out.
pub mod Answers
pub mod Replies
pub mod Codes
use kit_go.Prelude.{
  ℕ, String, Bytes, codes, List, [], ◌∷◌, ◌++◌, Option, none, some, ◌≡◌, str_eq, not, if◌then◌else◌,
  ℤ,
}
use kit_go.Prelude.Assoc.{string_eq, lookup}
use kit_go.Go.{Error, Act}
use kit_go.Transport.Common.{apply_options, run_before}
use Prim.Native.String.{◌++◌ as str_append}
use kit_go.Transport.Http.Writer.{
  ResponseWriter, Program, done, set_header, write_header, write, ◌>>=◌, ◌>>◌, exec, exec_on,
  status_ok,
}
use kit_go.Transport.Http.Server.{lift, run_after}
use kit_go.Transport.Jsonrpc.{
  Failure, parse_error, method_not_found_error, error_text, error_code, headers_of,
  internal_error_code, RpcError, Request, Response, version, content_type,
}
use kit_go.Transport.Jsonrpc.RequestId.{RequestId}

-- A result and an error.
pub record Handled (A : Type 0) : Type 0 where
  pub value : A
  pub err : Option Failure

-- EndpointCodec
pub record EndpointCodec (W Ctx Req Res : Type 0) : Type 0 where
  pub endpoint : Ctx → Req → Act W (Handled Res)
  pub decode : Ctx → Bytes → Act W (Handled Req)
  pub encode : Ctx → Res → Act W (Handled Bytes)

-- The method Handle of an EndpointHandler.
abbrev pub EndpointHandler : Type 0 → Type 0 → Type 0
EndpointHandler W Ctx = Ctx → List (Ctx → Program W Ctx) → Bytes → Program W (Handled Bytes)

-- EndpointCodec.Handle; nil is the empty list.
pub handle : {W Ctx Req Res : Type 0} → EndpointCodec W Ctx Req Res → EndpointHandler W Ctx
unfolding lift ◌>>=◌
handle e ctx after params = do
  decoded ← lift (e.decode ctx params)
  elim decoded.err [
    | some err ↦ done (record { value = []; err = some err })
    | none ↦ do
      reply ← lift (e.endpoint ctx decoded.value)
      elim reply.err [
        | some err ↦ done (record { value = []; err = some err })
        | none ↦ do ctx' ← run_after after ctx; lift (e.encode ctx' reply.value)
      ]
  ]

pub record Server (W Ctx Raw F : Type 0) : Type 0 where
  pub ecm : List (String × EndpointHandler W Ctx)
  pub before : List (Ctx → Raw → Act W Ctx)
  pub before_codec : List (Ctx → Raw × Request F → Act W Ctx)
  pub after : List (Ctx → Program W Ctx)
  pub error_encoder : Ctx → Failure → Program W (Unit {0})
  pub finalizer : Option (Ctx → ℕ → Raw → Act W (Unit {0}))

-- What the package context does with the keys of this package, requestIDKey and
-- ContextKeyRequestMethod.
pub record Keys (Ctx F : Type 0) : Type 0 where
  pub with_request_id : Option (RequestId F) → Ctx → Ctx
  pub with_method : String → Ctx → Ctx
  pub request_id : Ctx → Option (Option (RequestId F))
  pub request_id-with_request_id :
      (id : Option (RequestId F)) (ctx : Ctx) → request_id (with_request_id id ctx) ≡ some id
  pub request_id-with_method :
      (method : String) (ctx : Ctx) → request_id (with_method method ctx) ≡ request_id ctx

-- What other packages do for the server.
pub record Library (W Raw F : Type 0) : Type 0 where
  pub request_method : Raw → String
  pub decode_body : Raw → Act W (record { req : Request F; err : Option Error })
  pub encode : Response F → Program W (Unit {0})

-- requestID of DefaultErrorEncoder
abbrev pub or_nil {ℓ} : {A : Type ℓ} → Option (Option A) → Option A
or_nil none = none
or_nil (some id) = id

abbrev pub or_internal : Option ℤ → ℤ
or_internal none = internal_error_code
or_internal (some code) = code

set_headers : {W A : Type 0} → List (String × String) → Program W A → Program W A
set_headers [] p = p
set_headers ((k, v) ∷ rest) p = set_header k v (set_headers rest p)

with_headers : {W A : Type 0} → Option (List (String × String)) → Program W A → Program W A
unfolding set_headers
with_headers none p = p
with_headers (some headers) p = set_headers headers p

-- The writer interceptingWriter, whose state beside the outside is its field code. It has no
-- ReadFrom, since it embeds the interface only.
pub coded : {W : Type 0} → ResponseWriter W → ResponseWriter (W × ℕ)
coded w = record {
  set_header = λ k v s. (w.set_header k v s.0, s.1);
  add_header = λ k v s. (w.add_header k v s.0, s.1);
  write_header = λ code s. (w.write_header code s.0, code);
  write = λ p s. let (sent, outside') = w.write p s.0 in (sent, (outside', s.1));
  read_from = none;
}

pub not_found : String → String
not_found method = str_append "Method " (str_append method " was not found.")

pub undecoded : Error → String
undecoded err = str_append "JSON could not be decoded: " err.message

module _ {W Ctx Raw F : Type 0} (lib : Library W Raw F) (keys : Keys Ctx F) where
  -- The response of DefaultErrorEncoder.
  unfoldable pub error_response : Ctx → Failure → Response F
  error_response ctx err = record {
    jsonrpc = version;
    result = [];
    error = some (record {
      code = or_internal (error_code err);
      message = error_text err;
      error_data = none;
    });
    id = or_nil (keys.request_id ctx);
  }

  pub default_error_encoder : Ctx → Failure → Program W (Unit {0})
  unfolding with_headers
  default_error_encoder ctx err =
      set_header "Content-Type" content_type (
        with_headers (headers_of err)
          (write_header status_ok (lib.encode (error_response ctx err))))

  -- NewServer, and its options.
  pub new_server :
      List (String × EndpointHandler W Ctx)
      → List (Server W Ctx Raw F → Server W Ctx Raw F)
      → Server W Ctx Raw F
  unfolding default_error_encoder
  new_server ecm options = apply_options options (record {
    ecm = ecm;
    before = [];
    before_codec = [];
    after = [];
    error_encoder = default_error_encoder;
    finalizer = none;
  })

  pub server_before : List (Ctx → Raw → Act W Ctx) → Server W Ctx Raw F → Server W Ctx Raw F
  server_before before s = record s { before = s.before ++ before }

  pub server_before_codec :
      List (Ctx → Raw × Request F → Act W Ctx) → Server W Ctx Raw F → Server W Ctx Raw F
  server_before_codec before_codec s = record s { before_codec = s.before_codec ++ before_codec }

  pub server_after : List (Ctx → Program W Ctx) → Server W Ctx Raw F → Server W Ctx Raw F
  server_after after s = record s { after = s.after ++ after }

  pub server_error_encoder :
      (Ctx → Failure → Program W (Unit {0})) → Server W Ctx Raw F → Server W Ctx Raw F
  server_error_encoder ee s = record s { error_encoder = ee }

  pub server_finalizer :
      (Ctx → ℕ → Raw → Act W (Unit {0})) → Server W Ctx Raw F → Server W Ctx Raw F
  server_finalizer f s = record s { finalizer = some f }

  -- s.errorEncoder and return, with the context of the moment.
  pub fail : Server W Ctx Raw F → Ctx → Failure → Program W Ctx
  unfolding ◌>>=◌
  fail s ctx err = do s.error_encoder ctx err; done ctx

  -- The response to a request whose result was encoded.
  unfoldable pub result_response : Request F → Bytes → Response F
  result_response req result = record {
    jsonrpc = version;
    result = result;
    error = none;
    id = req.id;
  }

  -- What is done with the method's handler.
  pub answer : Server W Ctx Raw F → Ctx → Request F → EndpointHandler W Ctx → Program W Ctx
  unfolding ◌>>=◌ fail
  answer s ctx req handler = do
    handled ← handler ctx s.after req.params
    elim handled.err [
      | some err ↦ fail s ctx err
      | none ↦
          set_header "Content-Type" content_type
            (do lib.encode (result_response req handled.value); done ctx)
    ]

  -- From the look at s.ecm on.
  pub dispatch : Server W Ctx Raw F → Ctx → Request F → Program W Ctx
  unfolding fail answer
  dispatch s ctx req = elim (lookup req.method s.ecm) [
    | none ↦ fail s ctx (method_not_found_error (not_found req.method))
    | some handler ↦ answer s ctx req handler
  ]

  -- The context that the functions in s.beforeCodec are given.
  pub request_context : Request F → Ctx → Ctx
  request_context req ctx = keys.with_method req.method (keys.with_request_id req.id ctx)

  -- ServeHTTP on a POST, after the finalizer is installed; it returns the last context.
  pub respond : Server W Ctx Raw F → Ctx → Raw → Program W Ctx
  unfolding lift ◌>>=◌ fail request_context dispatch
  respond s ctx r = do
    ctx₁ ← lift (run_before s.before ctx r)
    decoded ← lift (lib.decode_body r)
    elim decoded.err [
      | some err ↦ fail s ctx₁ (parse_error (undecoded err))
      | none ↦ do
        let req = decoded.req
        ctx₂ ← lift (run_before s.before_codec (request_context req ctx₁) (r, req))
        dispatch s ctx₂ req
    ]

  -- The answer to a request that is no POST.
  pub must_post : Program W (Unit {0})
  must_post =
      set_header "Content-Type" "text/plain; charset=utf-8"
        (write_header 405 (write (codes "405 must POST\n") (λ sent. done tt)))

  pub serve_http : ResponseWriter W → Server W Ctx Raw F → Ctx → Raw → W → W
  unfolding must_post
  serve_http writer s ctx r w =
      if str_eq (lib.request_method r) "POST"
      then elim s.finalizer [
        | none ↦ (exec writer (respond s ctx r) w).1
        | some f ↦
            let (ctx', state) = exec_on (coded writer) (respond s ctx r) (w, status_ok) in
            (f ctx' state.1 r state.0).1
      ]
      else (exec writer must_post w).1
