-- ===== src/Transport/Grpc/Answers.antt =====
-- What ServeGRPC returns.
use kit_go.Prelude.{◌≡◌, Option, none, some, Bool, true, false, not, arith}
use kit_go.Transport.Grpc.{Library, Server, fail, send_if, respond, serve_grpc}

abbrev pub is_some {ℓ} : {A : Type ℓ} → Option A → Bool
is_some none = false
is_some (some a) = true

-- ServeGRPC returns a response or an error, never both and never neither.
pub serve_grpc-is_some :
    {W Ctx Req Res In Out : Type 0} (lib : Library W Ctx) (s : Server W Ctx Req Res In Out)
    (ctx : Ctx) (req : In) (w : W)
    → is_some (serve_grpc lib s ctx req w).0.resp ≡ not (is_some (serve_grpc lib s ctx req w).0.err)
unfolding serve_grpc respond fail send_if
serve_grpc-is_some lib s ctx req w = ground arith
