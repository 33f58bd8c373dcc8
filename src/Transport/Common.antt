-- ===== src/Transport/Common.antt =====
-- The loops that the servers of transport/ share, and what their decoders return.
use mathlib.Core.List.{foldl}
use kit_go.Prelude.{List, [], ◌∷◌, Option, ◌≡◌, refl}
use kit_go.Go.{Error, Act}

-- What a DecodeRequestFunc returns.
pub record Decoded (Req : Type 0) : Type 0 where
  pub request : Req
  pub err : Option Error

-- for _, option := range options
pub apply_options : {S : Type 0} → List (S → S) → S → S
apply_options [] s = s
apply_options (option ∷ options) s = apply_options options (option s)

module _ {W Ctx Raw : Type 0} where
  -- for _, f := range s.before
  unfoldable pub run_before : List (Ctx → Raw → Act W Ctx) → Ctx → Raw → Act W Ctx
  run_before [] ctx r w = (ctx, w)
  run_before (f ∷ fs) ctx r w = let (ctx', w') = f ctx r w in run_before fs ctx' r w'

  -- for _, f := range s.finalizer
  pub run_all : List (Ctx → Raw → Act W (Unit {0})) → Ctx → Raw → W → W
  run_all [] ctx r w = w
  run_all (f ∷ fs) ctx r w = run_all fs ctx r (f ctx r w).1

  -- Each function gets what the one before it left.
  pub run_before-foldl :
      (fs : List (Ctx → Raw → Act W Ctx)) (ctx : Ctx) (r : Raw) (w : W)
      → run_before fs ctx r w ≡ foldl (λ t f. f t.0 r t.1) (ctx, w) fs
  unfolding run_before
  run_before-foldl [] ctx r w = refl
  run_before-foldl (f ∷ fs) ctx r w = let (ctx', w') = f ctx r w in run_before-foldl fs ctx' r w'
