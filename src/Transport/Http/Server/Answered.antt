-- ===== src/Transport/Http/Server/Answered.antt =====
-- transport/http/server.go: what ServeHTTP does with a request, as functions of the outside.
use mathlib.Core.List.{foldl}
use kit_go.Prelude.{
  ◌≡◌, refl, sym, ap, ◌∙◌, List, [], ◌∷◌, Option, none, some, Option-cases, inl, inr,
}
use kit_go.Go.{Error}
use kit_go.Transport.Common.{run_before, run_before-foldl}
use kit_go.Transport.Http.Writer.{ResponseWriter, Program, exec}
use kit_go.Transport.Http.Server.{Server, run_after, respond}
use kit_go.Transport.Http.Server.Failures.{
  exec->>=, failed, encoded, respond_undecoded, respond_endpoint_failed, respond-encoded,
}

module _ {W Ctx : Type 0} (w : ResponseWriter W) where
  -- Each function after the endpoint gets what the one before it left.
  pub run_after-foldl :
      (fs : List (Ctx → Program W Ctx)) (ctx : Ctx) (x : W)
      → exec w (run_after fs ctx) x ≡ foldl (λ t f. exec w (f t.0) t.1) (ctx, x) fs
  unfolding run_after exec
  run_after-foldl [] ctx x = refl
  run_after-foldl (f ∷ fs) ctx x =
      exec->>= w (f ctx) (run_after fs) x
      ∙ run_after-foldl fs (exec w (f ctx) x).0 (exec w (f ctx) x).1

module _ {W Ctx Req Res Raw : Type 0} (w : ResponseWriter W) (s : Server W Ctx Req Res Raw) where
  -- An error goes to the handler of errors and then to the encoder of errors.
  refused : Ctx → Error → W → Ctx × W
  refused ctx err x = (ctx, (exec w (s.error_encoder ctx err) (s.error_handler ctx err x).1).1)

  -- The functions after the endpoint, one on what the other left, and then the encoder.
  accepted : Ctx → Res → W → Ctx × W
  unfolding refused
  accepted ctx response x =
      let (ctx', x') = foldl (λ t f. exec w (f t.0) t.1) (ctx, x) s.after in
      let (err, x'') = exec w (s.enc ctx' response) x' in
      elim err [ some err' ↦ refused ctx' err' x'' | none ↦ (ctx', x'') ]

  -- The endpoint.
  asked : Ctx → Req → W → Ctx × W
  unfolding refused accepted
  asked ctx request x =
      let (reply, x') = s.e ctx request x in
      elim reply.err [ some err ↦ refused ctx err x' | none ↦ accepted ctx reply.response x' ]

  -- The decoder, from where the functions before it end.
  decoded_at : Raw → Ctx × W → Ctx × W
  unfolding refused asked
  decoded_at r t =
      let (decoded, x) = s.dec t.0 r t.1 in
      elim decoded.err [ some err ↦ refused t.0 err x | none ↦ asked t.0 decoded.request x ]

  undecoded :
      (r : Raw) (t : Ctx × W) (err : Error)
      → (s.dec t.0 r t.1).0.err ≡ some err
      → decoded_at r t ≡ failed w s t.0 err (s.dec t.0 r t.1).1
  unfolding decoded_at refused failed
  undecoded r t err p = rw (p, decoded_at)

  decoded_well :
      (r : Raw) (t : Ctx × W)
      → (s.dec t.0 r t.1).0.err ≡ none
      → decoded_at r t ≡ (let (decoded, x) = s.dec t.0 r t.1 in asked t.0 decoded.request x)
  unfolding decoded_at
  decoded_well r t p = rw (p, decoded_at)

  asked-failed :
      (ctx : Ctx) (request : Req) (x : W) (err : Error)
      → (s.e ctx request x).0.err ≡ some err
      → asked ctx request x ≡ failed w s ctx err (s.e ctx request x).1
  unfolding asked refused failed
  asked-failed ctx request x err p = rw (p, asked)

  asked_well :
      (ctx : Ctx) (request : Req) (x : W)
      → (s.e ctx request x).0.err ≡ none
      → asked ctx request x ≡ (let (reply, y) = s.e ctx request x in accepted ctx reply.response y)
  unfolding asked
  asked_well ctx request x p = rw (p, asked)

  -- The functions before the endpoint, one on what the other left, and what comes after them.
  pub answered : Ctx → Raw → W → Ctx × W
  unfolding decoded_at
  answered ctx r x = decoded_at r (foldl (λ t f. f t.0 r t.1) (ctx, x) s.before)

  encoded_cases :
      (ctx : Ctx) (err : Option Error) (x : W)
      → encoded w s ctx err x ≡ elim err [ some err' ↦ refused ctx err' x | none ↦ (ctx, x) ]
  unfolding encoded failed refused
  encoded_cases ctx none x = refl
  encoded_cases ctx (some err) x = refl

  respond-accepted :
      (ctx : Ctx) (r : Raw) (x : W)
      → (let (ctx', x') = run_before s.before ctx r x in
          let (decoded, x'') = s.dec ctx' r x' in
          decoded.err ≡ none × (s.e ctx' decoded.request x'').0.err ≡ none)
      → exec w (respond s ctx r) x ≡ (
          let (ctx', x') = run_before s.before ctx r x in
          let (decoded, x'') = s.dec ctx' r x' in
          let (reply, y) = s.e ctx' decoded.request x'' in accepted ctx' reply.response y)
  unfolding accepted
  respond-accepted ctx r x h =
      let (ctx', x') = run_before s.before ctx r x in
      let (decoded, x'') = s.dec ctx' r x' in
      let (reply, y) = s.e ctx' decoded.request x'' in
      let after = run_after-foldl w s.after ctx' y in
      respond-encoded w s ctx r x h
      ∙ ap (λ t. let (err, y'') = exec w (s.enc t.0 reply.response) t.1 in encoded w s t.0 err y'')
          after
      ∙ (let (ctx'', y') = foldl (λ t f. exec w (f t.0) t.1) (ctx', y) s.after in
          let (err, y'') = exec w (s.enc ctx'' reply.response) y' in encoded_cases ctx'' err y'')

  respond-decoded_at :
      (ctx : Ctx) (r : Raw) (x : W)
      → exec w (respond s ctx r) x ≡ decoded_at r (run_before s.before ctx r x)
  respond-decoded_at ctx r x =
      let t = run_before s.before ctx r x in
      let (decoded, x') = s.dec t.0 r t.1 in
      elim (Option-cases decoded.err) [
        | inr (err, p) ↦ respond_undecoded w s ctx r x err p ∙ sym (undecoded r t err p)
        | inl p ↦ elim (Option-cases (s.e t.0 decoded.request x').0.err) [
          | inr (err, q) ↦
              respond_endpoint_failed w s ctx r x err (p, q)
              ∙ sym (decoded_well r t p ∙ asked-failed t.0 decoded.request x' err q)
          | inl q ↦
              respond-accepted ctx r x (p, q)
              ∙ sym (decoded_well r t p ∙ asked_well t.0 decoded.request x' q)
        ]
      ]

  -- ServeHTTP calls the functions before the decoder, the decoder, the endpoint, the functions after
  -- it and the encoder, each on the context and the outside that those before it left; at the first
  -- error it stops, and the error goes to the handler and then to the encoder of errors.
  pub respond-answered :
      (ctx : Ctx) (r : Raw) (x : W) → exec w (respond s ctx r) x ≡ answered ctx r x
  unfolding answered
  respond-answered ctx r x =
      respond-decoded_at ctx r x ∙ ap (decoded_at r) (run_before-foldl s.before ctx r x)
