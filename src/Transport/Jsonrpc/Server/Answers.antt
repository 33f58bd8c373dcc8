-- ===== src/Transport/Jsonrpc/Server/Answers.antt =====
-- transport/http/jsonrpc/server.go: with the default error encoder, all that a POST with a request
-- is answered, as functions of the outside.
use mathlib.Core.List.{foldl}
use Prim.Native.String.{◌++◌ as str_append}
use kit_go.Prelude.{
  ◌≡◌, refl, sym, ap, ◌∙◌, String, Bytes, List, [], ◌∷◌, Option, none, some, Option-cases, inl, inr,
}
use kit_go.Prelude.Assoc.{string_eq, lookup}
use kit_go.Transport.Common.{run_before, run_before-foldl}
use kit_go.Transport.Http.Writer.{
  ResponseWriter, Program, done, write_header, ◌>>=◌, exec, status_ok,
}
use kit_go.Transport.Http.Server.{lift}
use kit_go.Transport.Http.Server.Failures.{exec->>=}
use kit_go.Transport.Jsonrpc.{
  Failure, method_not_found_error, error_text, error_code, headers_of, Request, Response,
  content_type,
}
use kit_go.Transport.Jsonrpc.Server.{
  EndpointHandler, Handled, Server, Keys, Library, or_nil, or_internal, set_headers, with_headers,
  error_response, default_error_encoder, fail, result_response, answer, dispatch, request_context,
  respond, not_found,
}
use kit_go.Transport.Jsonrpc.Server.Replies.{KeepsId, decoded}

module _ {W : Type 0} (w : ResponseWriter W) where
  -- Headers that are set one after another.
  headed : Option (List (String × String)) → W → W
  headed none x = x
  headed (some headers) x = foldl (λ y header. w.set_header header.0 header.1 y) x headers

  set_headers-foldl :
      {A : Type 0} (headers : List (String × String)) (p : Program W A) (x : W)
      → exec w (set_headers headers p) x
        ≡ exec w p (foldl (λ y header. w.set_header header.0 header.1 y) x headers)
  unfolding set_headers exec
  set_headers-foldl [] p x = refl
  set_headers-foldl ((k, v) ∷ rest) p x = set_headers-foldl rest p (w.set_header k v x)

  with_headers-headed :
      {A : Type 0} (headers : Option (List (String × String))) (p : Program W A) (x : W)
      → exec w (with_headers headers p) x ≡ exec w p (headed headers x)
  unfolding with_headers headed
  with_headers-headed none p x = refl
  with_headers-headed (some headers) p x = set_headers-foldl headers p x

-- The response to a request whose handler returned a result, or an error.
pub response_to : {F : Type 0} → Request F → Handled Bytes → Response F
response_to req handled = elim handled.err [
  | none ↦ record { jsonrpc = "2.0"; result = handled.value; error = none; id = req.id }
  | some err ↦ record {
    jsonrpc = "2.0";
    result = [];
    error = some (record {
      code = or_internal (error_code err);
      message = error_text err;
      error_data = none;
    });
    id = req.id;
  }
]

module _ {W Ctx Raw F : Type 0} (w : ResponseWriter W) (lib : Library W Raw F) (keys : Keys Ctx F)
    (s : Server W Ctx Raw F) where
  -- What is to be answered: what the method's handler returns, or that there is no such method.
  pub handled : Ctx → Request F → W → Handled Bytes × W
  handled ctx req x = elim (lookup req.method s.ecm) [
    | none ↦
        let text = str_append "Method " (str_append req.method " was not found.") in
        (record { value = []; err = some (method_not_found_error text) }, x)
    | some handler ↦ exec w (handler ctx s.after req.params) x
  ]

  -- What comes before the response: an error has its own headers and the status 200 besides.
  prepared : Option Failure → W → W
  unfolding headed
  prepared none x = w.set_header "Content-Type" content_type x
  prepared (some err) x =
      w.write_header 200 (headed w (headers_of err) (w.set_header "Content-Type" content_type x))

  -- The response is written once, to what came before it.
  pub responded : Request F → Handled Bytes × W → W
  unfolding prepared
  responded req (h, x) = (exec w (lib.encode (response_to req h)) (prepared h.err x)).1

  fail-responded :
      (ctx : Ctx) (req : Request F) (value : Bytes) (err : Failure) (x : W)
      → s.error_encoder ≡ default_error_encoder lib keys
      → keys.request_id ctx ≡ some req.id
      → (exec w (fail lib keys s ctx err) x).1
        ≡ responded req (record { value = value; err = some err }, x)
  unfolding fail default_error_encoder exec responded prepared response_to error_response
  fail-responded ctx req value err x e h =
      let body = write_header status_ok (lib.encode (error_response lib keys ctx err)) in
      rw (exec->>= w (s.error_encoder ctx err) (λ _. done ctx) x, e)
        (ap (λ end. end.1)
            (with_headers-headed w (headers_of err) body
              (w.set_header "Content-Type" content_type x))
          ∙ ap
              (λ id.
                (exec w (lib.encode (record (error_response lib keys ctx err) { id = id })) (
                  w.write_header 200
                    (headed w (headers_of err) (w.set_header "Content-Type" content_type x)))).1)
              (ap or_nil h))

  answer-responded :
      (ctx : Ctx) (req : Request F) (handler : EndpointHandler W Ctx) (x : W)
      → s.error_encoder ≡ default_error_encoder lib keys
      → keys.request_id ctx ≡ some req.id
      → (exec w (answer lib keys s ctx req handler) x).1
        ≡ responded req (exec w (handler ctx s.after req.params) x)
  unfolding answer exec ◌>>=◌ result_response responded prepared response_to
  answer-responded ctx req handler x e h =
      let (reply, y) = exec w (handler ctx s.after req.params) x in
      let as_found =
        λ (err : Option Failure). responded req (record { value = reply.value; err = err }, y) in
      elim (Option-cases reply.err) [
        | inr (err, p) ↦
            let left : (exec w (answer lib keys s ctx req handler) x).1
                ≡ (exec w (fail lib keys s ctx err) y).1 =
              rw (exec->>= w (handler ctx s.after req.params) _ x, p) refl in
            left ∙ fail-responded ctx req reply.value err y e h ∙ ap as_found (sym p)
        | inl p ↦
            let y' = w.set_header "Content-Type" content_type y in
            let res = result_response lib keys req reply.value in
            let left : (exec w (answer lib keys s ctx req handler) x).1
                ≡ (exec w (lib.encode res) y').1 =
              rw
                (
                  exec->>= w (handler ctx s.after req.params) _ x,
                  p,
                  exec->>= w (lib.encode res) (λ _. done ctx) y',
                )
                refl in
            left ∙ ap as_found (sym p)
      ]

  dispatch-responded :
      (ctx : Ctx) (req : Request F) (x : W)
      → s.error_encoder ≡ default_error_encoder lib keys
      → keys.request_id ctx ≡ some req.id
      → (exec w (dispatch lib keys s ctx req) x).1 ≡ responded req (handled ctx req x)
  unfolding handled dispatch not_found
  dispatch-responded ctx req x e h = elim (Option-cases (lookup req.method s.ecm)) [
    | inr (handler, p) ↦ rw (p, dispatch, handled) (answer-responded ctx req handler x e h)
    | inl p ↦
        rw (p, dispatch, handled)
          (fail-responded ctx req [] (method_not_found_error (not_found req.method)) x e h)
  ]

  -- The context and the outside that the functions before the handler leave: those before the
  -- request is decoded, which get the HTTP request, and then those that get both requests, after the
  -- id and the method are put into the context.
  pub at_dispatch : Ctx → Raw → W → Ctx × W
  at_dispatch ctx r x =
      let (ctx', x') = foldl (λ t f. f t.0 r t.1) (ctx, x) s.before in
      let (decoded', x'') = lib.decode_body r x' in
      let req = decoded'.req in
      foldl (λ t f. f t.0 (r, req) t.1)
        (keys.with_method req.method (keys.with_request_id req.id ctx'), x'') s.before_codec

  -- With the default error encoder, and functions before the codec that keep the id in the context, a
  -- POST that decodes to a request is answered with headers, a status for an error, and then one
  -- response, and with nothing else. The response has the version 2.0 and the id of the request; if
  -- the method has a handler that returns no error, it has the result and no error, else no result
  -- and the handler's error, or that there is no such method.
  pub respond-responded :
      s.error_encoder ≡ default_error_encoder lib keys
      → KeepsId w lib keys s
      → (ctx : Ctx) (r : Raw) (x : W) → (decoded w lib keys s ctx r x).err ≡ none
      → (exec w (respond lib keys s ctx r) x).1 ≡ (
          let req = (decoded w lib keys s ctx r x).req in
          let (ctx', x') = at_dispatch ctx r x in responded req (handled ctx' req x'))
  unfolding respond request_context exec lift ◌>>=◌ at_dispatch
  respond-responded e keeps ctx r x d =
      let (ctx', x') = run_before s.before ctx r x in
      let req = (decoded w lib keys s ctx r x).req in
      let x'' = (lib.decode_body r x').1 in
      let ctx'' = request_context lib keys req ctx' in
      let y = run_before s.before_codec ctx'' (r, req) x'' in
      let has_id : keys.request_id y.0 ≡ some req.id =
        keeps ctx'' r req x''
        ∙ keys.request_id-with_method req.method (keys.with_request_id req.id ctx')
        ∙ keys.request_id-with_request_id req.id ctx' in
      rw (← run_before-foldl s.before ctx r x) (
        rw (← run_before-foldl s.before_codec ctx'' (r, req) x'')
          (rw (d) (dispatch-responded y.0 req y.1 e has_id)))
