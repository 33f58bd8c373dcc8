-- ===== src/Auth/Basic/Parse.antt =====
-- Credentials that are sent are the ones that are compared.
use kit_go.Prelude.{
  Bytes, same_bytes, ℕ, suc, ◌≡◌, refl, ap, ◌&&◌, [], ◌∷◌, ◌++◌, Option, none, some, length, take,
  drop, if◌then◌else◌, arith, String,
}
use kit_go.Endpoint.{Endpoint}
use kit_go.Auth.Basic.{
  prefix, has_prefix, index_byte, split_credentials, parse_basic_auth, Library, error_of,
  authorized, auth_middleware,
}

-- The first colon is the one behind a user name without one.
index_byte-append :
    (user password : Bytes)
    → index_byte user 58 ≡ none
    → index_byte (user ++ 58 ∷ password) 58 ≡ some (length user)
unfolding index_byte
index_byte-append [] password h = refl
index_byte-append (c ∷ user) password h = ground (arith, index_byte-append user password)

take-length : (xs ys : Bytes) → take (length xs) (xs ++ ys) ≡ xs
take-length [] ys = refl
take-length (x ∷ xs) ys = ap (◌∷◌ x) (take-length xs ys)

drop-length : (xs : Bytes) (c : ℕ) (ys : Bytes) → drop (suc (length xs)) (xs ++ c ∷ ys) ≡ ys
drop-length [] c ys = refl
drop-length (x ∷ xs) c ys = drop-length xs c ys

-- "Basic " and the encoding of a user name without a colon, a colon and a password parse to the
-- two.
pub parse_basic_auth_credentials :
    (decode_base64 : Bytes → Option Bytes) (encoded user password : Bytes)
    → decode_base64 encoded ≡ some (user ++ 58 ∷ password)
    → index_byte user 58 ≡ none
    → parse_basic_auth decode_base64 (prefix ++ encoded) ≡ some (user, password)
unfolding parse_basic_auth split_credentials has_prefix
parse_basic_auth_credentials decode_base64 encoded user password d u = ground (
  arith,
  d,
  index_byte-append user password u,
  take-length user (58 ∷ password),
  drop-length user 58 password,
)

-- A request with the credentials of a user whose name has no colon goes on to the endpoint just
-- if the hashes of both are the required ones, and is else refused without a call of it.
pub auth_middleware_credentials :
    {W Ctx Req Res : Type 0} (lib : Library Ctx) (zero_value : Res) (next : Endpoint W Ctx Req Res)
    (required_user required_password : Bytes) (realm : String) (encoded user password : Bytes)
    (ctx : Ctx) (request : Req) (w : W)
    → lib.authorization ctx ≡ some (prefix ++ encoded)
    → lib.decode_base64 encoded ≡ some (user ++ 58 ∷ password)
    → index_byte user 58 ≡ none
    → auth_middleware lib zero_value required_user required_password realm next ctx request w ≡ (
        if same_bytes (lib.sum256 user) (lib.sum256 required_user)
          && same_bytes (lib.sum256 password) (lib.sum256 required_password)
        then next ctx request w
        else (
          record {
            response = zero_value;
            err = some (error_of lib.status_text (record { realm = realm }));
          },
          w,
        ))
unfolding auth_middleware authorized
auth_middleware_credentials lib zero_value next ru rp realm encoded user password ctx request w a d
      u =
    ground (arith, a, parse_basic_auth_credentials lib.decode_base64 encoded user password d u)
