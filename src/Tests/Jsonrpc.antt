-- ===== src/Tests/Jsonrpc.antt =====
-- transport/http/jsonrpc on small inputs.
use mathlib.Core.Bool.{false≢true}
use kit_go.Prelude.{
  ℕ, zero, suc, ◌+◌, ◌<◌, ◌≡◌, ◌≢◌, refl, arith, str_eq_iff, ℤ, pos, Bytes, false, List, [], ◌∷◌,
  ◌++◌, Option, none, some,
}
use kit_go.Go.{errors_new}
use kit_go.Transport.Common.{run_before}
use kit_go.Transport.Http.Writer.{ResponseWriter, done, outside, exec}
use kit_go.Transport.Jsonrpc.{Failure, Request, Response, internal_error, error_text, error_code}
use kit_go.Transport.Jsonrpc.RequestId.{
  RequestId, Json, number, JsonLaws, marshal_json, unmarshal_json, marshal_json-unmarshal_json,
}
use kit_go.Transport.Jsonrpc.Server.{
  Handled, Server, Keys, Library, default_error_encoder, error_response, result_response, respond,
  serve_http, or_internal,
}
use kit_go.Transport.Jsonrpc.Server.Replies.{KeepsId}
use kit_go.Transport.Jsonrpc.Server.Answers.{at_dispatch, handled, responded, respond-responded}
use kit_go.Transport.Jsonrpc.Server.Codes.{serve_http_finalized}
use kit_go.Transport.Jsonrpc.Client as Client
use kit_go.Transport.Jsonrpc.Client.Ids.{nth_id, nth_id_fresh}
use kit_go.Transport.Jsonrpc.Client.Closed.{Counts, closed, client_endpoint_closes}
use kit_go.Transport.Jsonrpc.Client.Decoded.{default_response_decoder-response}

-- A text is printed between quotes, and a number after a sign by one byte.
abbrev json : Json ℕ
json = record {
  unmarshal_int = λ b. elim b [
    | [] ↦ (pos 0, some (errors_new "number"))
    | c ∷ rest ↦ elim rest [
      | [] ↦ (pos 0, some (errors_new "number"))
      | n ∷ more ↦ elim c [ zero ↦ (pos n, none) | suc d ↦ (pos 0, some (errors_new "number")) ]
    ]
  ];
  unmarshal_float = λ b. (0, some (errors_new "float"));
  unmarshal_string = λ b. elim b [ [] ↦ ([], some (errors_new "text")) | c ∷ rest ↦ (rest, none) ];
  marshal_int = λ n. (0 ∷ (elim n [ pos m ↦ m | ℤ.negsuc m ↦ m ]) ∷ [], none);
  marshal_float = λ x. ([], none);
  marshal_string = λ s. (1 ∷ s, none);
}

abbrev Natural : ℤ → Type 0
Natural n = (m : ℕ) × (n ≡ pos m)

abbrev IsAscii : Bytes → Type 0
IsAscii [] = Unit
IsAscii (c ∷ s) = (c < 128) × IsAscii s

json_laws : JsonLaws json Natural IsAscii
json_laws = record {
  int-int = λ n (m, e). rw (e) refl;
  int_printed = λ n. refl;
  string-string = λ s a. refl;
  string_printed = λ s. refl;
  int-string = λ s e.
      elim s as (λ s'. (json.unmarshal_int (1 ∷ s')).1 ≡ none → ⊥) [
        | [] ↦ λ e'. cc
        | c ∷ rest ↦ λ e'. cc
      ]
        e;
  float-string = λ s e. cc;
}

marshal_json-unmarshal_json_example :
    marshal_json json (unmarshal_json json (0 ∷ 7 ∷ [])) ≡ (0 ∷ 7 ∷ [], none)
marshal_json-unmarshal_json_example =
    marshal_json-unmarshal_json json Natural IsAscii json_laws (number (pos 7)) (7, refl)

-- The outside is the list of the responses that were written.
abbrev Outside : Type 0
Outside = List (Response ℕ)

abbrev writer : ResponseWriter Outside
writer = record {
  set_header = λ k v w. w;
  add_header = λ k v w. w;
  write_header = λ code w. w;
  write = λ p w. (record { n = 0; err = none }, w);
  read_from = none;
}

-- A context is the id that it holds.
abbrev keys : Keys (Option (Option (RequestId ℕ))) ℕ
keys = record {
  with_request_id = λ id ctx. some id;
  with_method = λ method ctx. ctx;
  request_id = λ ctx. ctx;
  request_id-with_request_id = λ id ctx. refl;
  request_id-with_method = λ method ctx. refl;
}

abbrev request : Request ℕ
request = record {
  jsonrpc = "2.0";
  method = "add";
  params = 1 ∷ [];
  id = some (unmarshal_json json (0 ∷ 7 ∷ []));
}

abbrev library : Library Outside ℕ ℕ
library = record {
  request_method = λ r. "POST";
  decode_body = λ r w. (record { req = request; err = none }, w);
  encode = λ res. outside (λ w. w ++ res ∷ []) (λ w. done tt);
}

abbrev server : Server Outside (Option (Option (RequestId ℕ))) ℕ ℕ
server = record {
  ecm = ("add", λ ctx after params. done (record { value = params; err = none })) ∷ [];
  before = [];
  before_codec = [];
  after = [];
  error_encoder = default_error_encoder library keys;
  finalizer = some (λ ctx code r w. (tt, []));
}

keeps_id : KeepsId writer library keys server
unfolding run_before
keeps_id ctx r req x = refl

respond-responded_example : (exec writer (respond library keys server none 3) []).1 ≡ (
    let (ctx, x) = at_dispatch writer library keys server none 3 [] in
    responded writer library keys server request (handled writer library keys server ctx request x))
respond-responded_example =
    respond-responded writer library keys server refl keeps_id none 3 [] refl

serve_http_finalized_example : serve_http library keys writer server none 3 [] ≡ []
serve_http_finalized_example =
    serve_http_finalized library keys writer server (λ ctx code r w. (tt, [])) none 3 [] refl refl
      refl

nth_id_fresh_example : (nth_id 5 0 ≡ 5) × (nth_id 5 1 ≢ nth_id 5 3)
nth_id_fresh_example = nth_id_fresh 5 1 3 (omega arith) (omega arith) (omega arith)

abbrev unmarshal : Bytes → Handled ℕ
unmarshal b = elim b [
  | [] ↦ record { value = 0; err = none }
  | v ∷ rest ↦ record { value = v; err = none }
]

abbrev broken : Failure
broken = internal_error "broken"

broken_text : error_text broken ≢ ""
unfolding error_text
broken_text e = false≢true ((str_eq_iff "broken" "").1 e)

default_response_decoder-response_example :
    (Client.default_response_decoder {W = Outside} {Ctx = ℕ} 0 unmarshal 1
        (result_response library keys request (4 ∷ []))
        []
      ≡ (record { value = 4; err = none }, []))
    × (failure : Failure) × (Client.default_response_decoder {W = Outside} {Ctx = ℕ} 0 unmarshal 1
          (error_response library keys none broken)
          []
        ≡ (record { value = 0; err = some failure }, []))
    × (error_text failure ≡ error_text broken)
    × (error_code failure ≡ some (or_internal (error_code broken)))
default_response_decoder-response_example =
    default_response_decoder-response library keys 0 (λ v. v ∷ []) unmarshal (λ v. refl) 4 broken
      request none 1 [] [] broken_text

-- The outside counts the calls of Close in tens, and those of cancel in ones.
abbrev http : Client.Library ℕ ℕ ℕ ℕ ℕ ℕ
http = record {
  new_request = λ w. (Client.got 0, w);
  set_body = λ req rpc_req w. (none, w);
  decode_body =
      λ resp w. (record { value = result_response library keys request (4 ∷ []); err = none }, w);
  cancel = λ w. 1 + w;
  close_body = λ resp w. 10 + w;
  with_method = λ method ctx. ctx;
  with_response = λ resp ctx. ctx;
}

abbrev client : Client.Client ℕ ℕ ℕ ℕ ℕ ℕ ℕ ℕ
client = record {
  client = λ ctx req w. (Client.got 0, w);
  method = "add";
  enc = λ ctx req w. (record { value = req ∷ []; err = none }, w);
  dec = λ ctx res w. (unmarshal res.result, w);
  before = [];
  after = [];
  finalizer = none;
  request_id = λ w. (0, w);
  buffered_stream = false;
}

counts : Counts http client 1 10
unfolding run_before
counts = record {
  count = λ w. w;
  count-cancel = λ w. refl;
  count-close_body = λ r w. refl;
  count-new_request = λ w. refl;
  count-set_body = λ r q w. refl;
  count-decode_body = λ r w. refl;
  count-client = λ ctx r w. refl;
  count-enc = λ ctx r w. refl;
  count-dec = λ ctx r w. refl;
  count-request_id = λ w. refl;
  count-before = λ ctx r w. refl;
  count-after = λ ctx r w. refl;
  count-finalizer = λ f e ctx err w. cc;
}

client_endpoint_closes_example :
    counts.count (Client.client_endpoint 0 http client 0 3 5).1
    ≡ 1 + (closed false 10 (Client.call 0 http client 0 3 5).0.resp + counts.count 5)
client_endpoint_closes_example = client_endpoint_closes 0 http client 1 10 counts 0 3 5
