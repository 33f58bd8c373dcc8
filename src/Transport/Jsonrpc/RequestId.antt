-- ===== src/Transport/Jsonrpc/RequestId.antt =====
-- RequestID of transport/http/jsonrpc/request_response_types.go. `Json` has the functions of
-- encoding/json that it calls, and `F` stands for float32.
use kit_go.Prelude.{ℤ, Bytes, Option, none, some, ◌≡◌, ◌≢◌, arith}
use kit_go.Go.{Error}

pub record RequestId (F : Type 0) : Type 0 where
  pub int_value : ℤ
  pub int_error : Option Error
  pub float_value : F
  pub float_error : Option Error
  pub string_value : Bytes
  pub string_error : Option Error

-- What json.Unmarshal leaves in a variable that was zero, and its error; and json.Marshal.
pub record Json (F : Type 0) : Type 0 where
  pub unmarshal_int : Bytes → ℤ × Option Error
  pub unmarshal_float : Bytes → F × Option Error
  pub unmarshal_string : Bytes → Bytes × Option Error
  pub marshal_int : ℤ → Bytes × Option Error
  pub marshal_float : F → Bytes × Option Error
  pub marshal_string : Bytes → Bytes × Option Error

module _ {F : Type 0} (json : Json F) where
  -- UnmarshalJSON, on a new value; it returns nil.
  pub unmarshal_json : Bytes → RequestId F
  unmarshal_json b = record {
    int_value = (json.unmarshal_int b).0;
    int_error = (json.unmarshal_int b).1;
    float_value = (json.unmarshal_float b).0;
    float_error = (json.unmarshal_float b).1;
    string_value = (json.unmarshal_string b).0;
    string_error = (json.unmarshal_string b).1;
  }

  pub marshal_json : RequestId F → Bytes × Option Error
  marshal_json id = elim id.int_error [
    | none ↦ json.marshal_int id.int_value
    | some e ↦ elim id.float_error [
      | none ↦ json.marshal_float id.float_value
      | some e' ↦ json.marshal_string id.string_value
    ]
  ]

  -- Int, Float32 and String
  pub int : RequestId F → ℤ × Option Error
  int id = (id.int_value, id.int_error)

  pub float32 : RequestId F → F × Option Error
  float32 id = (id.float_value, id.float_error)

  pub string : RequestId F → Bytes × Option Error
  string id = (id.string_value, id.string_error)

-- What an id may be by the specification of JSON-RPC, without fractions.
pub data AnyId : Type 0 where
  number : ℤ → AnyId
  text : Bytes → AnyId

abbrev pub print : {F : Type 0} → Json F → AnyId → Bytes
print json (number n) = (json.marshal_int n).0
print json (text s) = (json.marshal_string s).0

-- What is documented of encoding/json: it reads back what it prints, but for texts that are no UTF-8,
-- which it prints with another character in place of the wrong bytes; it prints these values without
-- an error, and refuses a text where a number is wanted. `Fits` says that a number is an int, and
-- `IsUtf8` that the bytes of a text are UTF-8.
pub record JsonLaws {F : Type 0} (json : Json F) (Fits : ℤ → Type 0) (IsUtf8 : Bytes → Type 0)
    : Type 0 where
  pub int-int : (n : ℤ) → Fits n → json.unmarshal_int (json.marshal_int n).0 ≡ (n, none)
  pub int_printed : (n : ℤ) → (json.marshal_int n).1 ≡ none
  pub string-string :
      (s : Bytes) → IsUtf8 s → json.unmarshal_string (json.marshal_string s).0 ≡ (s, none)
  pub string_printed : (s : Bytes) → (json.marshal_string s).1 ≡ none
  pub int-string : (s : Bytes) → (json.unmarshal_int (json.marshal_string s).0).1 ≢ none
  pub float-string : (s : Bytes) → (json.unmarshal_float (json.marshal_string s).0).1 ≢ none

abbrev pub IsPlain : (ℤ → Type 0) → (Bytes → Type 0) → AnyId → Type 0
IsPlain Fits IsUtf8 (number n) = Fits n
IsPlain Fits IsUtf8 (text s) = IsUtf8 s

-- Over a package with these laws, an id that is a text in UTF-8, or a number within the ints, is printed in the response as it was printed
-- in the request.
pub marshal_json-unmarshal_json :
    {F : Type 0} (json : Json F) (Fits : ℤ → Type 0) (IsUtf8 : Bytes → Type 0)
    (laws : JsonLaws json Fits IsUtf8) (id : AnyId)
    → IsPlain Fits IsUtf8 id
    → marshal_json json (unmarshal_json json (print json id)) ≡ (print json id, none)
unfolding marshal_json unmarshal_json
marshal_json-unmarshal_json json Fits IsUtf8 laws (number n) h =
    ground (arith, laws.int-int n h, laws.int_printed n)
marshal_json-unmarshal_json json Fits IsUtf8 laws (text s) h =
    ground
      (arith, laws.string-string s h, laws.string_printed s, laws.int-string s, laws.float-string s)

-- Two numbers that are no ints and have one float32 are printed alike in their responses.
pub marshal_json_rounds :
    {F : Type 0} (json : Json F) (a b : Bytes)
    → (json.unmarshal_int a).1 ≢ none
    → (json.unmarshal_int b).1 ≢ none
    → (json.unmarshal_float a).1 ≡ none
    → json.unmarshal_float a ≡ json.unmarshal_float b
    → marshal_json json (unmarshal_json json a) ≡ marshal_json json (unmarshal_json json b)
unfolding marshal_json unmarshal_json
marshal_json_rounds json a b p q r e = ground arith
