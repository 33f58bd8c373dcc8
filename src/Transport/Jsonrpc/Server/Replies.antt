-- ===== src/Transport/Jsonrpc/Server/Replies.antt =====
-- transport/http/jsonrpc/server.go: with the default error encoder, what a POST is answered.
use kit_go.Prelude.{
  ◌≡◌, refl, ap, String, List, [], ◌∷◌, Option, none, some, ℤ, Option-cases, ◌≢◌, ◌⊎◌, inl, inr,
}
use kit_go.Prelude.Assoc.{string_eq, lookup}
use kit_go.Go.{Error}
use kit_go.Transport.Common.{run_before}
use kit_go.Transport.Http.Writer.{
  ResponseWriter, Program, done, write_header, ◌>>=◌, exec, status_ok,
}
use kit_go.Transport.Http.Server.{lift}
use kit_go.Transport.Http.Server.Failures.{exec->>=}
use kit_go.Transport.Jsonrpc.{
  RpcError, Failure, parse_error, method_not_found_error, error_code, headers_of, Request, Response,
  parse_error_code, content_type, method_not_found_error_code,
}
use kit_go.Transport.Jsonrpc.Server.{
  Server, Keys, Library, set_headers, with_headers, error_response, default_error_encoder, fail,
  dispatch, request_context, respond, not_found, undecoded,
}

module _ {W : Type 0} (w : ResponseWriter W) where
  -- Headers are set before what follows.
  headers_set :
      {A : Type 0} (headers : List (String × String)) (p : Program W A) (x : W)
      → (y : W) × (exec w (set_headers headers p) x ≡ exec w p y)
  unfolding set_headers exec
  headers_set [] p x = (x, refl)
  headers_set ((k, v) ∷ rest) p x = headers_set rest p (w.set_header k v x)

  with_headers_set :
      {A : Type 0} (headers : Option (List (String × String))) (p : Program W A) (x : W)
      → (y : W) × (exec w (with_headers headers p) x ≡ exec w p y)
  unfolding with_headers
  with_headers_set none p x = (x, refl)
  with_headers_set (some headers) p x = headers_set headers p x

-- A response that was written last, from where the outside was `start`, and left it at `end`.
pub record Written {W F : Type 0} (w : ResponseWriter W)
    (encode : Response F → Program W (Unit {0})) (end : W) : Type 0 where
  pub res : Response F
  pub start : W
  pub written : end ≡ (exec w (encode res) start).1

module _ {W Ctx Raw F : Type 0} (w : ResponseWriter W) (lib : Library W Raw F) (keys : Keys Ctx F)
    (s : Server W Ctx Raw F) where
  -- What `fail` writes with the default error encoder.
  fail_writes :
      (ctx : Ctx) (err : Failure) (x : W)
      → s.error_encoder ≡ default_error_encoder lib keys
      → (y : W) × ((exec w (fail lib keys s ctx err) x).1
          ≡ (exec w (lib.encode (error_response lib keys ctx err)) y).1)
  unfolding fail default_error_encoder exec
  fail_writes ctx err x e =
      let body = write_header status_ok (lib.encode (error_response lib keys ctx err)) in
      let (y, p) =
        with_headers_set w (headers_of err) body (w.set_header "Content-Type" content_type x) in
      rw (exec->>= w (s.error_encoder ctx err) (λ _. done ctx) x, e)
        (w.write_header status_ok y, ap (λ end. end.1) p)

  pub dispatch_unknown :
      (ctx : Ctx) (req : Request F)
      → lookup req.method s.ecm ≡ none
      → dispatch lib keys s ctx req
        ≡ fail lib keys s ctx (method_not_found_error (not_found req.method))
  unfolding dispatch
  dispatch_unknown ctx req p = rw (p, dispatch)

  -- The functions in s.beforeCodec leave the id of the request in the context.
  abbrev pub KeepsId : Type 0
  KeepsId =
      (ctx : Ctx) (r : Raw) (req : Request F) (x : W)
      → keys.request_id (run_before s.before_codec ctx (r, req) x).0 ≡ keys.request_id ctx

  -- What the body of a request decodes to, after the functions in s.before.
  abbrev pub decoded : Ctx → Raw → W → record { req : Request F; err : Option Error }
  decoded ctx r x = (lib.decode_body r (run_before s.before ctx r x).1).0

  -- The code of a request that did not decode, or whose method is unknown.
  abbrev pub code_of : Option Error → ℤ
  code_of none = method_not_found_error_code
  code_of (some err) = parse_error_code

  -- With the default error encoder, a POST whose body does not decode is answered last with a
  -- response whose error has the code -32700, and one with an unknown method with -32601.
  pub respond_codes :
      s.error_encoder ≡ default_error_encoder lib keys
      → (ctx : Ctx) (r : Raw) (x : W)
      → ((decoded ctx r x).err ≢ none) ⊎ (lookup (decoded ctx r x).req.method s.ecm ≡ none)
      → (written : Written w lib.encode (exec w (respond lib keys s ctx r) x).1)
        × (error : RpcError) × (written.res.error ≡ some error)
        × (error.code ≡ code_of (decoded ctx r x).err)
  unfolding respond request_context exec lift ◌>>=◌ error_response error_code
  respond_codes e ctx r x d =
      let (ctx', x') = run_before s.before ctx r x in
      let x'' = (lib.decode_body r x').1 in
      elim (Option-cases (decoded ctx r x).err) [
        | inr (err, p) ↦
            let failure = parse_error (undecoded err) in
            let (y, q) = fail_writes ctx' failure x'' e in
            rw (p) (
              record { res = error_response lib keys ctx' failure; start = y; written = q },
              _,
              refl,
              refl,
            )
        | inl p ↦ elim d [
          | inl some_error ↦ elim (some_error p) [ ]
          | inr unknown ↦
              let req = (decoded ctx r x).req in
              let ctx'' = request_context lib keys req ctx' in
              let y = run_before s.before_codec ctx'' (r, req) x'' in
              let failure = method_not_found_error (not_found req.method) in
              let (z, q) = fail_writes y.0 failure y.1 e in
              rw (p, dispatch_unknown y.0 req unknown)
                (
                  record { res = error_response lib keys y.0 failure; start = z; written = q },
                  _,
                  refl,
                  refl,
                )
        ]
      ]
