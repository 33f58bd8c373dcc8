-- ===== src/Auth/Jwt.antt =====
-- auth/jwt/transport.go and middleware.go. A text that is looked into is a list of bytes. Of other
-- packages, `Context` has the keys of package context, `Jwt` what is used of golang-jwt, and
-- `equal_fold` is strings.EqualFold. A request's header is given by its values of Authorization,
-- and metadata by its entry of authorization.
pub mod Bearer
pub mod Accepted
use kit_go.Prelude.{
  ℕ, String, Bytes, codes, ◌==◌, Bool, true, false, not, List, [], ◌∷◌, ◌++◌, Option, none, some,
  if◌then◌else◌,
}
use kit_go.Go.{Error, errors_new}
use kit_go.Endpoint.{Middleware}

-- strings.Split(s, " ")
unfoldable pub split : Bytes → List Bytes
split [] = [] ∷ []
split (c ∷ s) =
    let rest = split s in
    if c == 32
    then [] ∷ rest
    else (elim rest [ [] ↦ (c ∷ []) ∷ [] | part ∷ parts ↦ (c ∷ part) ∷ parts ])

abbrev pub bearer : Bytes
bearer = codes "bearer"

-- generateAuthHeaderFromToken, with the format bearerFormat.
pub generate_auth_header_from_token : Bytes → Bytes
generate_auth_header_from_token token = codes "Bearer " ++ token

-- The test of extractTokenFromAuthHeader on the parts: there are two, and the first is the scheme.
token_of : (Bytes → Bytes → Bool) → List Bytes → Option Bytes
token_of equal_fold (scheme ∷ token ∷ []) = if equal_fold scheme bearer then some token else none
token_of equal_fold _ = none

pub extract_token_from_auth_header : (Bytes → Bytes → Bool) → Bytes → Option Bytes
unfolding token_of
extract_token_from_auth_header equal_fold val = token_of equal_fold (split val)

-- JWTContextKey and JWTClaimsContextKey, where the former has a string.
pub record Context (Ctx C : Type 0) : Type 0 where
  pub token : Ctx → Option Bytes
  pub with_token : Bytes → Ctx → Ctx
  pub with_claims : C → Ctx → Ctx

-- r.Header.Get("Authorization")
abbrev pub first_or_empty : List Bytes → Bytes
first_or_empty [] = []
first_or_empty (v ∷ vs) = v

module _ {Ctx C : Type 0} (context : Context Ctx C) (equal_fold : Bytes → Bytes → Bool) where
  pub http_to_context : List Bytes → Ctx → Ctx
  unfolding extract_token_from_auth_header
  http_to_context authorization ctx =
      elim (extract_token_from_auth_header equal_fold (first_or_empty authorization)) [
        | none ↦ ctx
        | some token ↦ context.with_token token ctx
      ]

  -- GRPCToContext; `none` is the panic of authHeader[0].
  pub grpc_to_context : Option (List Bytes) → Ctx → Option Ctx
  unfolding extract_token_from_auth_header
  grpc_to_context none ctx = some ctx
  grpc_to_context (some []) ctx = none
  grpc_to_context (some (value ∷ values)) ctx =
      elim (extract_token_from_auth_header equal_fold value) [
        | none ↦ some ctx
        | some token ↦ some (context.with_token token ctx)
      ]

module _ {Ctx C : Type 0} (context : Context Ctx C) where
  pub context_to_http : Ctx → List Bytes → List Bytes
  unfolding generate_auth_header_from_token
  context_to_http ctx authorization = elim (context.token ctx) [
    | none ↦ authorization
    | some token ↦ authorization ++ generate_auth_header_from_token token ∷ []
  ]

  pub context_to_grpc : Ctx → Option (List Bytes) → Option (List Bytes)
  unfolding generate_auth_header_from_token
  context_to_grpc ctx authorization = elim (context.token ctx) [
    | none ↦ authorization
    | some token ↦ some (generate_auth_header_from_token token ∷ [])
  ]

-- The types and functions of golang-jwt: `signed_string` makes a token with the claims and the key
-- id, and signs it; `is` asks errors.Is for ErrTokenMalformed, ErrTokenExpired and
-- ErrTokenNotValidYet.
pub record Jwt (Token Key Method C : Type 0) : Type 0 where
  pub signed_string : Method → C → String → Bytes → Bytes × Option Error
  pub parse_with_claims : Bytes → C → (Token → Option Key × Option Error) → Token × Option Error
  pub method_of : Token → Method
  pub same_method : Method → Method → Bool
  pub is_valid : Token → Bool
  pub claims_of : Token → C
  pub is_malformed : Error → Bool
  pub is_expired : Error → Bool
  pub is_not_valid_yet : Error → Bool

abbrev pub err_token_context_missing : Error
err_token_context_missing = errors_new "token up for parsing was not passed through the context"

abbrev pub err_token_invalid : Error
err_token_invalid = errors_new "JWT was invalid"

abbrev pub err_token_expired : Error
err_token_expired = errors_new "JWT is expired"

abbrev pub err_token_malformed : Error
err_token_malformed = errors_new "JWT is malformed"

abbrev pub err_token_not_active : Error
err_token_not_active = errors_new "token is not valid yet"

abbrev pub err_unexpected_signing_method : Error
err_unexpected_signing_method = errors_new "unexpected signing method"

module _ {C Token Key Method : Type 0} (jwt : Jwt Token Key Method C) where
  -- The Keyfunc that NewParser hands to the parser.
  pub checked_key : (Token → Option Key × Option Error) → Method → Token → Option Key × Option Error
  checked_key key_func method token =
      if not (jwt.same_method (jwt.method_of token) method)
      then (none, some err_unexpected_signing_method)
      else key_func token

  -- The switch on an error of the parser.
  parse_error : Error → Error
  parse_error err =
      if jwt.is_malformed err
      then err_token_malformed
      else if jwt.is_expired err
      then err_token_expired
      else if jwt.is_not_valid_yet err
      then err_token_not_active
      else err

module _ {Ctx C Token Key Method W Req Res : Type 0} (context : Context Ctx C)
    (jwt : Jwt Token Key Method C) (zero_value : Res) where
  pub new_signer : String → Bytes → Method → C → Middleware W Ctx Req Res
  new_signer kid key method claims next ctx request w =
      let (token, failed) = jwt.signed_string method claims kid key in
      elim failed [
        | some err ↦ (record { response = zero_value; err = some err }, w)
        | none ↦ next (context.with_token token ctx) request w
      ]

  -- NewParser, where `new_claims` is what the ClaimsFactory returns.
  pub new_parser : (Token → Option Key × Option Error) → Method → C → Middleware W Ctx Req Res
  unfolding checked_key parse_error
  new_parser key_func method new_claims next ctx request w = elim (context.token ctx) [
    | none ↦ (record { response = zero_value; err = some err_token_context_missing }, w)
    | some text ↦
        let (token, failed) =
          jwt.parse_with_claims text new_claims (checked_key jwt key_func method) in
        elim failed [
          | some err ↦ (record { response = zero_value; err = some (parse_error jwt err) }, w)
          | none ↦
              if not (jwt.is_valid token)
              then (record { response = zero_value; err = some err_token_invalid }, w)
              else next (context.with_claims (jwt.claims_of token) ctx) request w
        ]
  ]
