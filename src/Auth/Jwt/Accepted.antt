-- ===== src/Auth/Jwt/Accepted.antt =====
-- auth/jwt/middleware.go: which requests the parser lets pass.
use kit_go.Prelude.{
  Bytes, true, ◌≡◌, ◌⊎◌, inl, inr, refl, Bool-cases, Option-cases, Option, none, some, arith,
}
use kit_go.Go.{Error}
use kit_go.Endpoint.{Endpoint}
use kit_go.Auth.Jwt.{
  Context, Jwt, checked_key, new_parser, parse_error, err_token_context_missing, err_token_invalid,
}

-- A token that was parsed from a text, is valid, has the method, and for which the key was found.
pub record Accepted {Token Key Method C : Type 0} (jwt : Jwt Token Key Method C)
    (key_func : Token → Option Key × Option Error) (method : Method) (new_claims : C) (text : Bytes)
    (token : Token) : Type 0 where
  pub parsed : (jwt.parse_with_claims text new_claims (checked_key jwt key_func method)).0 ≡ token
  pub no_error : (jwt.parse_with_claims text new_claims (checked_key jwt key_func method)).1 ≡ none
  pub valid : jwt.is_valid token ≡ true
  pub right_method : jwt.same_method (jwt.method_of token) method ≡ true
  pub key_found : (key_func token).1 ≡ none

module _ {C Token Key Method : Type 0} (jwt : Jwt Token Key Method C) where
  checked_key-found :
      (key_func : Token → Option Key × Option Error) (method : Method) (token : Token)
      → (checked_key jwt key_func method token).1 ≡ none
      → (jwt.same_method (jwt.method_of token) method ≡ true) × ((key_func token).1 ≡ none)
  unfolding checked_key
  checked_key-found key_func method token h = ground (arith, h)

module _ {Ctx C Token Key Method W Req Res : Type 0} (context : Context Ctx C)
    (jwt : Jwt Token Key Method C) (zero_value : Res) where
  -- If the parser of the library returns no token without an error for which its Keyfunc failed, a
  -- request goes on to the endpoint, with the claims of its token, only if the token is valid, has
  -- the required method, and its key was found; every other request is refused with an error and
  -- without a call of the endpoint.
  pub new_parser-Accepted :
      (key_func : Token → Option Key × Option Error) (method : Method) (new_claims : C)
      (next : Endpoint W Ctx Req Res) (ctx : Ctx) (request : Req) (w : W)
      → ((text : Bytes) (f : Token → Option Key × Option Error)
          → (jwt.parse_with_claims text new_claims f).1 ≡ none
          → (f (jwt.parse_with_claims text new_claims f).0).1 ≡ none)
      → ((text : Bytes) × (token : Token) × (context.token ctx ≡ some text)
          × Accepted jwt key_func method new_claims text token
          × (new_parser context jwt zero_value key_func method new_claims next ctx request w
              ≡ next (context.with_claims (jwt.claims_of token) ctx) request w))
        ⊎ ((err : Error) × (new_parser context jwt zero_value key_func method new_claims next ctx
                request w
              ≡ (record { response = zero_value; err = some err }, w)))
  unfolding new_parser
  new_parser-Accepted key_func method new_claims next ctx request w law =
      elim (Option-cases (context.token ctx)) [
        | inl p ↦ inr (err_token_context_missing, rw (p, new_parser) refl)
        | inr (text, p) ↦
            let checked = checked_key jwt key_func method in
            let parsed = jwt.parse_with_claims text new_claims checked in
            elim (Option-cases parsed.1) [
              | inr (err, q) ↦ inr (parse_error jwt err, rw (p, q, new_parser) refl)
              | inl q ↦ elim (Bool-cases (jwt.is_valid parsed.0)) [
                | inr v ↦ inr (err_token_invalid, rw (p, q, v, new_parser) refl)
                | inl v ↦
                    let (m, k) =
                      checked_key-found jwt key_func method parsed.0 (law text checked q) in
                    inl (
                      text,
                      parsed.0,
                      p,
                      record {
                        parsed = refl;
                        no_error = q;
                        valid = v;
                        right_method = m;
                        key_found = k;
                      },
                      rw (p, q, v, new_parser) refl,
                    )
              ]
            ]
      ]
