-- ===== src/Auth/Basic.antt =====
-- auth/basic/middleware.go. Bytes are numbers and a string is its bytes. `decode_base64` and
-- `sum256` are the library's base64 decoder and SHA-256, which are parameters;
-- subtle.ConstantTimeCompare is the comparison of two byte strings.
pub mod Parse
use Prim.Native.String.{◌++◌ as str_append}
use kit_go.Prelude.{
  Bytes, same_bytes, ℕ, String, ◌==◌, Bool, true, false, not, ◌&&◌, ◌||◌, List, [], ◌∷◌, ◌++◌,
  Option, none, some, length, take, drop, if◌then◌else◌,
}
use kit_go.Go.{Error, Act}
use kit_go.Endpoint.{Middleware}

-- "Basic "
abbrev pub prefix : Bytes
prefix = 66 ∷ 97 ∷ 115 ∷ 105 ∷ 99 ∷ 32 ∷ []

-- strings.HasPrefix
pub has_prefix : Bytes → Bytes → Bool
has_prefix s [] = true
has_prefix [] (p ∷ ps) = false
has_prefix (c ∷ s) (p ∷ ps) = c == p && has_prefix s ps

-- bytes.IndexByte, where -1 is `none`.
unfoldable pub index_byte : Bytes → ℕ → Option ℕ
index_byte [] b = none
index_byte (c ∷ s) b =
    let rest = index_byte s b in
    if c == b then some 0 else (elim rest [ none ↦ none | some i ↦ some (ℕ.suc i) ])

-- c[:s] and c[s+1:]
pub split_credentials : Bytes → Option (Bytes × Bytes)
unfolding index_byte
split_credentials c = elim (index_byte c 58) [
  | none ↦ none
  | some s ↦ some (take s c, drop (ℕ.suc s) c)
]

module _ (decode_base64 : Bytes → Option Bytes) where
  -- parseBasicAuth, where `ok` tells `some` from `none`.
  pub parse_basic_auth : Bytes → Option (Bytes × Bytes)
  unfolding has_prefix split_credentials
  parse_basic_auth auth = elim (decode_base64 (drop (length prefix) auth)) [
    | none ↦ none
    | some c ↦ if not (has_prefix auth prefix) then none else split_credentials c
  ]

-- The functions of other packages, and the authorization that the context holds, if it is a string.
pub record Library (Ctx : Type 0) : Type 0 where
  pub decode_base64 : Bytes → Option Bytes
  pub sum256 : Bytes → Bytes
  pub status_text : ℕ → String
  pub authorization : Ctx → Option Bytes

-- AuthError, with the realm that its Headers name.
pub record AuthError : Type 0 where
  pub realm : String

-- AuthError.StatusCode
abbrev pub status_code : AuthError → ℕ
status_code e = 401

-- AuthError.Error, as the error value that the endpoint returns.
pub error_of : (ℕ → String) → AuthError → Error
error_of status_text e = record { message = status_text 401 }

-- Both hashes agree.
pub authorized : {Ctx : Type 0} → Library Ctx → Bytes → Bytes → Bytes × Bytes → Bool
authorized lib required_user required_password given = not (
    not (same_bytes (lib.sum256 given.0) (lib.sum256 required_user))
    || not (same_bytes (lib.sum256 given.1) (lib.sum256 required_password)))

-- AuthError.Headers, where `quote` prints a string with the verb %q.
pub headers : (String → String) → AuthError → List (String × List String)
headers quote e =
    ("Content-Type", "text/plain; charset=utf-8" ∷ [])
    ∷ ("X-Content-Type-Options", "nosniff" ∷ [])
    ∷ ("WWW-Authenticate", str_append "Basic realm=" (quote e.realm) ∷ [])
    ∷ []

module _ {W Ctx Req Res : Type 0} (lib : Library Ctx) (zero_value : Res) where
  pub auth_middleware : Bytes → Bytes → String → Middleware W Ctx Req Res
  unfolding parse_basic_auth authorized
  auth_middleware required_user required_password realm next ctx request w =
      let refusal : record { response : Res; err : Option Error } = record {
        response = zero_value;
        err = some (error_of lib.status_text (record { realm = realm }));
      } in
      elim (lib.authorization ctx) [
        | none ↦ (refusal, w)
        | some auth ↦ elim (parse_basic_auth lib.decode_base64 auth) [
          | none ↦ (refusal, w)
          | some given ↦
              if not (authorized lib required_user required_password given)
              then (refusal, w)
              else next ctx request w
        ]
      ]
