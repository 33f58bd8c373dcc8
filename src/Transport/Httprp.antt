-- ===== src/Transport/Httprp.antt =====
-- transport/httprp/server.go. The reverse proxy is a handler of another package, a parameter, and a
-- request is a pointer, whose contents are in the outside `W`.
use kit_go.Prelude.{◌≡◌, refl, List, [], ◌∷◌, ◌++◌}
use kit_go.Go.{Act}
use kit_go.Transport.Common.{apply_options, run_before}

-- The field errorEncoder, which nothing uses, is left out.
pub record Server (W Ctx Raw : Type 0) : Type 0 where
  pub proxy : Raw → W → W
  pub before : List (Ctx → Raw → Act W Ctx)

module _ {W Ctx Raw : Type 0} where
  -- NewServer, over the proxy to the base URL, and its option.
  pub new_server : (Raw → W → W) → List (Server W Ctx Raw → Server W Ctx Raw) → Server W Ctx Raw
  new_server proxy options = apply_options options (record { proxy = proxy; before = [] })

  pub server_before : List (Ctx → Raw → Act W Ctx) → Server W Ctx Raw → Server W Ctx Raw
  server_before before s = record s { before = s.before ++ before }

  -- ServeHTTP, with the context of the request.
  pub serve_http : Server W Ctx Raw → Ctx → Raw → W → W
  serve_http s ctx r w = let (ctx', w') = run_before s.before ctx r w in s.proxy r w'

  run_before-append :
      (fs gs : List (Ctx → Raw → Act W Ctx)) (ctx : Ctx) (r : Raw) (w : W)
      → run_before (fs ++ gs) ctx r w
        ≡ (let (ctx', w') = run_before fs ctx r w in run_before gs ctx' r w')
  unfolding run_before
  run_before-append [] gs ctx r w = refl
  run_before-append (f ∷ fs) gs ctx r w =
      let (ctx', w') = f ctx r w in run_before-append fs gs ctx' r w'

  -- The context that the last function returns has no effect: the proxy is called on the request as
  -- it came.
  pub serve_http_context :
      (s : Server W Ctx Raw) (f : Ctx → Raw → Act W Ctx) (change : Ctx → Ctx) (ctx : Ctx) (r : Raw)
      (w : W)
      → serve_http (server_before (f ∷ []) s) ctx r w
        ≡ serve_http
            (server_before ((λ c r' w'. (change (f c r' w').0, (f c r' w').1)) ∷ []) s)
            ctx
            r
            w
  unfolding serve_http server_before run_before
  serve_http_context s f change ctx r w =
      rw
        (
          run_before-append s.before (f ∷ []) ctx r w,
          run_before-append s.before ((λ c r' w'. (change (f c r' w').0, (f c r' w').1)) ∷ []) ctx r
              w,
        )
        refl
