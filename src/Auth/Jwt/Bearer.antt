-- ===== src/Auth/Jwt/Bearer.antt =====
-- auth/jwt/transport.go: a token that is sent in a header is the one that is read there.
use kit_go.Prelude.{
  Bytes, codes, ◌==◌, Bool, true, false, ◌≡◌, refl, List, [], ◌∷◌, Option, some, arith, ◌||◌,
}
use kit_go.Auth.Jwt.{
  split, bearer, generate_auth_header_from_token, token_of, extract_token_from_auth_header, Context,
  http_to_context, grpc_to_context, context_to_http, context_to_grpc,
}

-- Is there a space?
unfoldable pub has_space : Bytes → Bool
has_space [] = false
has_space (c ∷ s) = c == 32 || has_space s

split_token : (s : Bytes) → has_space s ≡ false → split s ≡ s ∷ []
unfolding split has_space
split_token [] h = refl
split_token (c ∷ s) h = ground (arith, h, split_token s)

-- The header made of a token without a space is read as that token, if the letters of Bearer are
-- those of bearer but for their case.
pub extract_token-generate :
    (equal_fold : Bytes → Bytes → Bool) (token : Bytes)
    → equal_fold (codes "Bearer") bearer ≡ true
    → has_space token ≡ false
    → extract_token_from_auth_header equal_fold (generate_auth_header_from_token token) ≡ some token
unfolding extract_token_from_auth_header generate_auth_header_from_token token_of split
extract_token-generate equal_fold token f h = rw (split_token token h, f) refl

module _ {Ctx C : Type 0} (context : Context Ctx C) (equal_fold : Bytes → Bytes → Bool) where
  -- A token in the context of a client is put in the context of the server, by HTTP if the request
  -- had no Authorization, and by gRPC whatever the metadata had, if the token has no space.
  pub to_context-context_to :
      (client server : Ctx) (token : Bytes) (authorization : Option (List Bytes))
      → equal_fold (codes "Bearer") bearer ≡ true
      → context.token client ≡ some token
      → has_space token ≡ false
      → (http_to_context context equal_fold (context_to_http context client []) server
          ≡ context.with_token token server)
        × (grpc_to_context context equal_fold (context_to_grpc context client authorization) server
            ≡ some (context.with_token token server))
  unfolding http_to_context grpc_to_context context_to_http context_to_grpc
  to_context-context_to client server token authorization f t h =
      let read = extract_token-generate equal_fold token f h in
      let sent : context_to_http context client [] ≡ generate_auth_header_from_token token ∷ [] =
        ground (arith, t) in
      let put : context_to_grpc context client authorization
          ≡ some (generate_auth_header_from_token token ∷ []) =
        ground (arith, t) in
      (ground (arith, sent, read), ground (arith, put, read))
