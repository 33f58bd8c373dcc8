-- ===== src/Transport/Jsonrpc/Client/Decoded.antt =====
-- transport/http/jsonrpc: what the default decoder of the client makes of the server's responses.
use kit_go.Prelude.{
  ◌≡◌, ◌≢◌, refl, String, Bytes, none, some, Bool-cases, inl, inr, str_eq, str_eq_iff,
  if◌then◌else◌,
}
use kit_go.Transport.Jsonrpc.{Failure, rpc, error_text, error_code, Request}
use kit_go.Transport.Jsonrpc.Server.{Handled, Keys, or_internal, error_response, result_response}
use kit_go.Transport.Jsonrpc.Server as Server
use kit_go.Transport.Jsonrpc.Client.{default_response_decoder}

-- A text that is not empty is not replaced by the message of a code.
kept : (text other : String) → text ≢ "" → (if str_eq text "" then other else text) ≡ text
kept text other h = elim (Bool-cases (str_eq text "")) [
  | inl p ↦ elim (h ((str_eq_iff text "").0 p)) [ ]
  | inr p ↦ rw (p) refl
]

module _ {W Ctx Ctx' Raw Res F : Type 0} (lib : Server.Library W Raw F) (keys : Keys Ctx F)
    (zero_value : Res) (marshal : Res → Bytes) (unmarshal : Bytes → Handled Res) where
  -- Over a marshaller whose results are read back, the client decodes the response to a value to
  -- that value, and the response to an error whose text is not empty to an error with the same text
  -- and with its code, or that of an internal error if it has none.
  pub default_response_decoder-response :
      ((v : Res) → unmarshal (marshal v) ≡ record { value = v; err = none })
      → (v : Res) (err : Failure) (req : Request F) (ctx : Ctx) (ctx' : Ctx') (w w' : W)
      → error_text err ≢ ""
      → (default_response_decoder zero_value unmarshal ctx'
            (result_response lib keys req (marshal v))
            w
          ≡ (record { value = v; err = none }, w))
        × (failure : Failure) × (default_response_decoder zero_value unmarshal ctx'
              (error_response lib keys ctx err)
              w'
            ≡ (record { value = zero_value; err = some failure }, w'))
        × (error_text failure ≡ error_text err)
        × (error_code failure ≡ some (or_internal (error_code err)))
  unfolding default_response_decoder error_response result_response error_text error_code
  default_response_decoder-response laws v err req ctx ctx' w w' nonempty =
      (rw (laws v) refl, rpc _, refl, kept (error_text err) _ nonempty, refl)
