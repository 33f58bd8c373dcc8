-- ===== src/Transport/Awslambda/Errors.antt =====
-- Errors of a handler that keeps the default error encoder.
use kit_go.Prelude.{ℕ, ◌≡◌, List, none, some, arith}
use kit_go.Go.{Error}
use kit_go.Transport.Awslambda.{Handler, default_error_encoder, fail, respond, invoke}

-- With the default error encoder, an error that Invoke returns comes without a response.
pub invoke_error :
    {W Ctx Req Res : Type 0} (h : Handler W Ctx Req Res) (ctx : Ctx) (payload : List ℕ) (w : W)
    (err : Error)
    → h.error_encoder ≡ default_error_encoder
    → (invoke h ctx payload w).0.err ≡ some err
    → (invoke h ctx payload w).0.resp ≡ none
unfolding invoke respond fail
invoke_error h ctx payload w err d e = ground (arith, d)
