-- ===== src/Transport/Http/Server/Failures.antt =====
-- transport/http/server.go: the answer of a server on each of its paths.
use kit_go.Prelude.{ℕ, ◌≡◌, refl, ◌∙◌, Option, none, some}
use kit_go.Go.{Error}
use kit_go.Transport.Common.{run_before}
use kit_go.Transport.Http.Writer.{
  ResponseWriter, Program, done, set_header, add_header, write_header, write, copy, outside,
  copy_to, ◌>>=◌, exec,
}
use kit_go.Transport.Http.Writer.Counting.{code_after}
use kit_go.Transport.Http.Server.{Server, lift, run_after, fail, fail_if, encode, respond}

module _ {W : Type 0} (w : ResponseWriter W) where
  -- A sequence of programs runs the second where the first left the outside.
  pub exec->>= :
      {A B : Type 0} (p : Program W A) (f : A → Program W B) (x : W)
      → exec w (p >>= f) x ≡ exec w (f (exec w p x).0) (exec w p x).1
  unfolding exec ◌>>=◌
  exec->>= (done a) f x = refl
  exec->>= (set_header k v p) f x = exec->>= p f (w.set_header k v x)
  exec->>= (add_header k v p) f x = exec->>= p f (w.add_header k v x)
  exec->>= (write_header c p) f x = exec->>= p f (w.write_header c x)
  exec->>= (write bytes p) f x = let (sent, x') = w.write bytes x in exec->>= (p sent) f x'
  exec->>= (copy bytes p) f x = let (sent, x') = copy_to w bytes x in exec->>= (p sent) f x'
  exec->>= (outside change p) f x = exec->>= (p x) f (change x)

  -- The code that a sequence leaves is the one that the second program leaves after the first.
  code_after->>= :
      {A B : Type 0} (p : Program W A) (f : A → Program W B) (code : ℕ) (x : W)
      → code_after w (p >>= f) code x
        ≡ code_after w (f (exec w p x).0) (code_after w p code x) (exec w p x).1
  unfolding exec code_after ◌>>=◌
  code_after->>= (done a) f code x = refl
  code_after->>= (set_header k v p) f code x = code_after->>= p f code (w.set_header k v x)
  code_after->>= (add_header k v p) f code x = code_after->>= p f code (w.add_header k v x)
  code_after->>= (write_header c p) f code x = code_after->>= p f c (w.write_header c x)
  code_after->>= (write bytes p) f code x =
      let (sent, x') = w.write bytes x in code_after->>= (p sent) f code x'
  code_after->>= (copy bytes p) f code x =
      let (sent, x') = copy_to w bytes x in code_after->>= (p sent) f code x'
  code_after->>= (outside change p) f code x = code_after->>= (p x) f code (change x)

module _ {W Ctx Req Res Raw : Type 0} (w : ResponseWriter W) (s : Server W Ctx Req Res Raw) where
  -- What is left when an error is handled and encoded at `x`.
  unfoldable pub failed : Ctx → Error → W → Ctx × W
  failed ctx err x = (ctx, (exec w (s.error_encoder ctx err) (s.error_handler ctx err x).1).1)

  -- What is left when an encoder, that ended at `x`, has returned its error.
  unfoldable pub encoded : Ctx → Option Error → W → Ctx × W
  unfolding failed
  encoded ctx none x = (ctx, x)
  encoded ctx (some err) x = failed ctx err x

  fail-failed : (ctx : Ctx) (err : Error) (x : W) → exec w (fail s ctx err) x ≡ failed ctx err x
  unfolding failed fail exec lift ◌>>=◌
  fail-failed ctx err x =
      rw (exec->>= w (s.error_encoder ctx err) (λ _. done ctx) (s.error_handler ctx err x).1)

  failed_if :
      (ctx : Ctx) (err : Option Error) (x : W) → exec w (fail_if s ctx err) x ≡ encoded ctx err x
  unfolding fail_if encoded exec
  failed_if ctx none x = refl
  failed_if ctx (some err) x = fail-failed ctx err x

  encode_or_fail :
      (ctx : Ctx) (response : Res) (x : W)
      → exec w (encode s ctx response) x
        ≡ (let (err, x') = exec w (s.enc ctx response) x in encoded ctx err x')
  unfolding encode encoded
  encode_or_fail ctx response x =
      exec->>= w (s.enc ctx response) (fail_if s ctx) x
      ∙ failed_if ctx (exec w (s.enc ctx response) x).0 (exec w (s.enc ctx response) x).1

  -- If a request does not decode, the error is handled and encoded with the context that the
  -- functions before left, and neither the endpoint nor a function after it runs.
  pub respond_undecoded :
      (ctx : Ctx) (r : Raw) (x : W) (err : Error)
      → ((s.dec (run_before s.before ctx r x).0 r (run_before s.before ctx r x).1).0).err ≡ some err
      → exec w (respond s ctx r) x
        ≡ failed
            (run_before s.before ctx r x).0
            err
            (s.dec (run_before s.before ctx r x).0 r (run_before s.before ctx r x).1).1
  unfolding respond exec lift ◌>>=◌
  respond_undecoded ctx r x err e = rw (e) (
      fail-failed (run_before s.before ctx r x).0 err
        (s.dec (run_before s.before ctx r x).0 r (run_before s.before ctx r x).1).1)

  -- If the endpoint fails, its error is handled and encoded, and no function after it runs.
  pub respond_endpoint_failed :
      (ctx : Ctx) (r : Raw) (x : W) (err : Error)
      → (let (ctx', x') = run_before s.before ctx r x in
          let (decoded, x'') = s.dec ctx' r x' in
          decoded.err ≡ none × (s.e ctx' decoded.request x'').0.err ≡ some err)
      → exec w (respond s ctx r) x ≡ (
          let (ctx', x') = run_before s.before ctx r x in
          let (decoded, x'') = s.dec ctx' r x' in failed ctx' err (s.e ctx' decoded.request x'').1)
  unfolding respond exec lift ◌>>=◌
  respond_endpoint_failed ctx r x err (d, e) =
      rw (d, e)
        (let (ctx', x') = run_before s.before ctx r x in
          let (decoded, x'') = s.dec ctx' r x' in
          fail-failed ctx' err (s.e ctx' decoded.request x'').1)

  -- If neither fails, the functions after the endpoint run, the response is encoded with the
  -- context that they leave, and an error of the encoder is handled and encoded as well.
  pub respond-encoded :
      (ctx : Ctx) (r : Raw) (x : W)
      → (let (ctx', x') = run_before s.before ctx r x in
          let (decoded, x'') = s.dec ctx' r x' in
          decoded.err ≡ none × (s.e ctx' decoded.request x'').0.err ≡ none)
      → exec w (respond s ctx r) x ≡ (
          let (ctx', x') = run_before s.before ctx r x in
          let (decoded, x'') = s.dec ctx' r x' in
          let (reply, y) = s.e ctx' decoded.request x'' in
          let (ctx'', y') = exec w (run_after s.after ctx') y in
          let (err, y'') = exec w (s.enc ctx'' reply.response) y' in encoded ctx'' err y'')
  unfolding respond exec lift ◌>>=◌
  respond-encoded ctx r x (d, e) =
      rw (d, e)
        (let (ctx', x') = run_before s.before ctx r x in
          let (decoded, x'') = s.dec ctx' r x' in
          let (reply, y) = s.e ctx' decoded.request x'' in
          exec->>= w (run_after s.after ctx') (λ ctx''. encode s ctx'' reply.response) y
          ∙ encode_or_fail (exec w (run_after s.after ctx') y).0 reply.response
              (exec w (run_after s.after ctx') y).1)
