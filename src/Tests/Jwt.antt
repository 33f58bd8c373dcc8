-- ===== src/Tests/Jwt.antt =====
-- auth/jwt on small inputs.
use kit_go.Prelude.{ℕ, ◌≡◌, ◌⊎◌, refl, Bool, true, false, Bytes, [], ◌∷◌, Option, none, some}
use kit_go.Go.{Error}
use kit_go.Endpoint.{Endpoint}
use kit_go.Auth.Jwt.{
  Context, Jwt, http_to_context, context_to_http, grpc_to_context, context_to_grpc, new_parser,
}
use kit_go.Auth.Jwt.Bearer.{has_space, to_context-context_to}
use kit_go.Auth.Jwt.Accepted.{Accepted, new_parser-Accepted}

-- A context is the token that it holds.
abbrev context : Context (Option Bytes) ℕ
context = record {
  token = λ ctx. ctx;
  with_token = λ token ctx. some token;
  with_claims = λ claims ctx. ctx;
}

abbrev equal_fold : Bytes → Bytes → Bool
equal_fold s t = true

no_space : has_space (97 ∷ 98 ∷ []) ≡ false
unfolding has_space
no_space = refl

to_context-context_to_example :
    (http_to_context context equal_fold (context_to_http context (some (97 ∷ 98 ∷ [])) []) none
      ≡ some (97 ∷ 98 ∷ []))
    × (grpc_to_context context equal_fold
          (context_to_grpc context (some (97 ∷ 98 ∷ [])) (some []))
          none
        ≡ some (some (97 ∷ 98 ∷ [])))
to_context-context_to_example =
    to_context-context_to context equal_fold (some (97 ∷ 98 ∷ [])) none (97 ∷ 98 ∷ []) (some [])
      refl refl no_space

-- A token is its text; the parser fails where the key is not found.
abbrev jwt : Jwt Bytes ℕ ℕ ℕ
jwt = record {
  signed_string = λ method claims kid key. (key, none);
  parse_with_claims = λ text claims key_func. (text, (key_func text).1);
  method_of = λ token. 0;
  same_method = λ m n. true;
  is_valid = λ token. true;
  claims_of = λ token. 5;
  is_malformed = λ err. false;
  is_expired = λ err. false;
  is_not_valid_yet = λ err. false;
}

abbrev key_func : Bytes → Option ℕ × Option Error
key_func token = (some 1, none)

abbrev endpoint : Endpoint ℕ (Option Bytes) ℕ ℕ
endpoint ctx request w = (record { response = 9; err = none }, w)

new_parser-Accepted_example :
    ((text : Bytes) × (token : Bytes) × (some (97 ∷ []) ≡ some text)
      × Accepted jwt key_func 0 5 text token
      × (new_parser context jwt 0 key_func 0 5 endpoint (some (97 ∷ [])) 2 3
          ≡ endpoint (some (97 ∷ [])) 2 3))
    ⊎ ((err : Error) × (new_parser context jwt 0 key_func 0 5 endpoint (some (97 ∷ [])) 2 3
          ≡ (record { response = 0; err = some err }, 3)))
new_parser-Accepted_example =
    new_parser-Accepted context jwt 0 key_func 0 5 endpoint (some (97 ∷ [])) 2 3 (λ text f e. e)
