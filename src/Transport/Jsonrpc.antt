-- ===== src/Transport/Jsonrpc.antt =====
-- transport/http/jsonrpc: error.go and request_response_types.go. Raw JSON is a list of bytes.
pub mod RequestId
pub mod Server
pub mod Client
use kit_go.Prelude.{
  ℕ, String, ℤ, pos, negsuc, minus, Bytes, List, [], ◌∷◌, Option, none, some, str_eq, Bool, true,
  false, ◌&&◌, ◌==◌, if◌then◌else◌,
}
use kit_go.Prelude.Assoc.{Eq, lookup}
use kit_go.Go.{Error}

abbrev pub version : String
version = "2.0"

abbrev pub content_type : String
content_type = "application/json; charset=utf-8"

-- The codes ParseError to InternalError.
abbrev pub parse_error_code : ℤ
parse_error_code = minus 32700

abbrev pub invalid_request_error_code : ℤ
invalid_request_error_code = minus 32600

abbrev pub method_not_found_error_code : ℤ
method_not_found_error_code = minus 32601

abbrev pub invalid_params_error_code : ℤ
invalid_params_error_code = minus 32602

abbrev pub internal_error_code : ℤ
internal_error_code = minus 32603

-- The struct Error, whose Data is raw JSON if it is there.
pub record RpcError : Type 0 where
  pub code : ℤ
  pub message : String
  pub error_data : Option Bytes

abbrev pub same_code : ℤ → ℤ → Bool
same_code (pos m) (pos n) = m == n
same_code (negsuc m) (negsuc n) = m == n
same_code _ _ = false

-- errorMessage, and ErrorMessage, which returns the empty string for an unknown code.
pub error_message : ℤ → String
error_message code =
    if same_code code parse_error_code
    then "An error occurred on the server while parsing the JSON text."
    else if same_code code invalid_request_error_code
    then "The JSON sent is not a valid Request object."
    else if same_code code method_not_found_error_code
    then "The method does not exist / is not available."
    else if same_code code invalid_params_error_code
    then "Invalid method parameter(s)."
    else if same_code code internal_error_code
    then "Internal JSON-RPC error."
    else ""

-- An error value: one of this package's types, or `foreign` with what its methods ErrorCode and
-- Headers return, if it has them.
pub data Failure : Type 0 where
  parse_error invalid_request_error method_not_found_error invalid_params_error internal_error :
      String → Failure
  rpc : RpcError → Failure
  foreign : Error → Option ℤ → Option (List (String × String)) → Failure

-- The method Error.
unfoldable pub error_text : Failure → String
unfolding error_message
error_text (parse_error e) = e
error_text (invalid_request_error e) = e
error_text (method_not_found_error e) = e
error_text (invalid_params_error e) = e
error_text (internal_error e) = e
error_text (rpc e) = if str_eq e.message "" then error_message e.code else e.message
error_text (foreign e code headers) = e.message

-- The method ErrorCode, if the error has it.
unfoldable pub error_code : Failure → Option ℤ
error_code (parse_error e) = some parse_error_code
error_code (invalid_request_error e) = some invalid_request_error_code
error_code (method_not_found_error e) = some method_not_found_error_code
error_code (invalid_params_error e) = some invalid_params_error_code
error_code (internal_error e) = some internal_error_code
error_code (rpc e) = some e.code
error_code (foreign e code headers) = code

-- The method Headers, if the error has it: each key with the first of its values.
abbrev pub headers_of : Failure → Option (List (String × String))
headers_of (foreign e code headers) = headers
headers_of _ = none

-- The struct Request. A null or missing ID is nil.
pub record Request (F : Type 0) : Type 0 where
  pub jsonrpc : String
  pub method : String
  pub params : Bytes
  pub id : Option (RequestId.RequestId F)

-- The struct Response, where an empty Result and a nil Error are left out.
pub record Response (F : Type 0) : Type 0 where
  pub jsonrpc : String
  pub result : Bytes
  pub error : Option RpcError
  pub id : Option (RequestId.RequestId F)
