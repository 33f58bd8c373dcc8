-- ===== src/Transport/Http/Server/Finalizers.antt =====
-- transport/http/server.go: what the finalizers of a server learn of the response.
use mathlib.Core.List.{foldl}
use native.Mathlib.Nat.{zero-add}
use kit_go.Go.{Act}
use kit_go.Prelude.{ℕ, ◌≡◌, refl, List, [], ◌∷◌, is_empty, if◌then◌else◌, ap, ◌∙◌}
use kit_go.Transport.Http.Writer.{
  ResponseWriter, new_intercepted, Program, exec, exec_intercepted, status_ok,
}
use kit_go.Transport.Http.Writer.Counting.{code_after, accepted, exec_intercepted-exec}
use kit_go.Transport.Http.Server.{Server, respond, run_finalizers, serve_http}

-- What a program leaves in an intercepting writer that is new.
exec_new :
    {W A : Type 0} (writer : ResponseWriter W) (p : Program W A) (w : W)
    → exec_intercepted writer p (w, new_intercepted) ≡ (
      (exec writer p w).0,
      (
        (exec writer p w).1,
        record { code = code_after writer p status_ok w; written = accepted writer p w },
      ),
    )
unfolding new_intercepted
exec_new writer p w =
    exec_intercepted-exec writer p w new_intercepted
    ∙ ap
        (λ n. (
          (exec writer p w).0,
          ((exec writer p w).1, record { code = code_after writer p status_ok w; written = n }),
        ))
        (zero-add (accepted writer p w))

-- What the finalizers leave, each called once on what the one before it left.
pub finalized :
    {W Ctx Raw : Type 0} → List (Ctx → ℕ → Raw → Act W (Unit {0})) → Ctx → ℕ → Raw → W → W
finalized fs ctx code r w = foldl (λ x f. (f ctx code r x).1) w fs

run_finalizers-finalized :
    {W Ctx Raw : Type 0} (fs : List (Ctx → ℕ → Raw → Act W (Unit {0}))) (ctx : Ctx) (code : ℕ)
    (r : Raw) (w : W)
    → run_finalizers fs ctx code r w ≡ finalized fs ctx code r w
unfolding run_finalizers finalized
run_finalizers-finalized [] ctx code r w = refl
run_finalizers-finalized (f ∷ fs) ctx code r w =
    run_finalizers-finalized fs ctx code r (f ctx code r w).1

-- Without a finalizer, nothing runs.
none_run :
    {W Ctx Raw : Type 0} (fs : List (Ctx → ℕ → Raw → Act W (Unit {0}))) (ctx : Ctx) (code : ℕ)
    (r : Raw) (w : W)
    → (if is_empty fs then w else run_finalizers fs ctx code r w) ≡ finalized fs ctx code r w
unfolding finalized
none_run [] ctx code r w = refl
none_run (f ∷ fs) ctx code r w = run_finalizers-finalized (f ∷ fs) ctx code r w

module _ {W Ctx Req Res Raw : Type 0} (writer : ResponseWriter W)
    (with_response : W → ℕ → Ctx → Ctx) where
  -- A server answers a request as it would on the writer itself, whether it has finalizers or not,
  -- and the finalizers run after that, in their order, on what the answer left. Each is given the
  -- last status code that was sent, 200 if none was, and the context in which the functions after
  -- the endpoint left it, with the response's headers and the number of bytes that calls of Write
  -- accepted.
  pub serve_http-finalized :
      (s : Server W Ctx Req Res Raw) (ctx : Ctx) (r : Raw) (w : W)
      → serve_http writer with_response s ctx r w
        ≡ finalized s.finalizer
            (with_response
              (exec writer (respond s ctx r) w).1
              (accepted writer (respond s ctx r) w)
              (exec writer (respond s ctx r) w).0)
            (code_after writer (respond s ctx r) status_ok w)
            r
            (exec writer (respond s ctx r) w).1
  unfolding serve_http
  serve_http-finalized s ctx r w =
      ap
        (λ result.
          if is_empty s.finalizer
          then (exec writer (respond s ctx r) w).1
          else run_finalizers s.finalizer (with_response result.1.0 result.1.1.written result.0)
              result.1.1.code r result.1.0)
        (exec_new writer (respond s ctx r) w)
      ∙ none_run s.finalizer
          (with_response (exec writer (respond s ctx r) w).1 (accepted writer (respond s ctx r) w)
            (exec writer (respond s ctx r) w).0)
          (code_after writer (respond s ctx r) status_ok w) r (exec writer (respond s ctx r) w).1
