-- ===== src/Endpoint/Chain.antt =====
-- The loop of `Chain` against a fold.
use mathlib.Core.List.{foldr}
use kit_go.Prelude.{
  ℕ, zero, suc, ◌≤◌, ◌≡◌, refl, ap, List, [], ◌∷◌, ◌++◌, get_elem?-lt, length, arith, ◌∙◌,
}
use kit_go.Endpoint.{Endpoint, Middleware, wrap, chain}

module _ {ℓ} {W Ctx Req Res : Type ℓ} where
  -- Rounds on `m ∷ ms` are those on `ms`, and then `m`.
  wrap-cons :
      (m : Middleware W Ctx Req Res) (ms : List (Middleware W Ctx Req Res)) (i : ℕ)
      (next : Endpoint W Ctx Req Res)
      → i ≤ length ms
      → wrap (m ∷ ms) (suc i) next ≡ m (wrap ms i next)
  unfolding wrap
  wrap-cons m ms zero next h = refl
  wrap-cons m ms (suc i) next h =
      let (a, e) = get_elem?-lt ms i (omega arith) in
      rw (e, wrap) (wrap-cons m ms i (a next) (omega arith))

  wrap-foldr :
      (ms : List (Middleware W Ctx Req Res)) (next : Endpoint W Ctx Req Res)
      → wrap ms (length ms) next ≡ foldr (λ m e. m e) next ms
  unfolding wrap
  wrap-foldr [] next = refl
  wrap-foldr (m ∷ ms) next =
      wrap-cons m ms (length ms) next (omega arith) ∙ ap m (wrap-foldr ms next)

  -- `Chain` applies its middlewares from the last to the first, so that a request goes through
  -- the first one first: the loop over the indices is the right fold.
  pub chain-foldr :
      (outer : Middleware W Ctx Req Res) (others : List (Middleware W Ctx Req Res))
      (next : Endpoint W Ctx Req Res)
      → chain outer others next ≡ foldr (λ m e. m e) next (outer ∷ others)
  unfolding chain
  chain-foldr outer others next = ap outer (wrap-foldr others next)

  foldr-append :
      (ms ns : List (Middleware W Ctx Req Res)) (next : Endpoint W Ctx Req Res)
      → foldr (λ m e. m e) next (ms ++ ns) ≡ foldr (λ m e. m e) (foldr (λ m e. m e) next ns) ms
  foldr-append [] ns next = refl
  foldr-append (m ∷ ms) ns next = ap m (foldr-append ms ns next)

  -- Chains nest: a chain whose last member is a chain is the one chain of all the members.
  pub chain-chain :
      (a b : Middleware W Ctx Req Res) (ms ns : List (Middleware W Ctx Req Res))
      (next : Endpoint W Ctx Req Res)
      → chain a (ms ++ chain b ns ∷ []) next ≡ chain a (ms ++ b ∷ ns) next
  chain-chain a b ms ns next = simp (chain-foldr, foldr-append)
