-- ===== src/Tests/Transports.antt =====
-- The other transports, and authentication, on small inputs.
use kit_go.Prelude.{
  Bytes, same_bytes, ℕ, suc, ◌+◌, ◌≡◌, refl, ◌&&◌, false, [], ◌∷◌, ◌++◌, none, some, if◌then◌else◌,
}
use kit_go.Go.{errors_new}
use kit_go.Endpoint.{Endpoint}
use kit_go.Transport.Common.{run_before}
use kit_go.Transport.Nats.{Subscriber}
use kit_go.Transport.Awslambda.{Handler, default_error_encoder, invoke, respond, fail}
use kit_go.Transport.Grpc as Grpc
use kit_go.Transport.Grpc.{serve_grpc}
use kit_go.Transport.Http.Client.{Client, Remote, made, failed}
use kit_go.Transport.Http.Client.Closed.{Cancels}
use kit_go.Auth.Basic.{prefix, Library, index_byte, error_of, auth_middleware}
use kit_go.Auth.Basic.Parse.{auth_middleware_credentials}

-- An endpoint that fails on 0, over a count of what is sent.
abbrev endpoint : Endpoint ℕ ℕ ℕ ℕ
endpoint ctx request w = elim request [
  | ℕ.zero ↦ (record { response = 0; err = some (errors_new "endpoint") }, w)
  | ℕ.suc n ↦ (record { response = n; err = none }, w)
]

abbrev subscriber : Subscriber ℕ ℕ ℕ ℕ ℕ
subscriber = record {
  e = endpoint;
  dec = λ ctx msg w. (record { request = msg; err = none }, w);
  enc = λ ctx reply response w. (none, w + 1);
  before = [];
  after = [];
  error_encoder = λ ctx err reply w. (tt, w + 1);
  finalizer = [];
  error_handler = λ ctx err w. (tt, w);
}

abbrev handler : Handler ℕ ℕ ℕ ℕ
handler = record {
  e = endpoint;
  dec = λ ctx payload w. (record { request = 0; err = none }, w);
  enc = λ ctx response w. (record { resp = some (response ∷ []); err = none }, w);
  before = [];
  after = [];
  error_encoder = default_error_encoder;
  finalizer = [];
  error_handler = λ ctx err w. (tt, w + 1);
}

endpoint_failed : (invoke handler 0 (1 ∷ []) 5).0.err ≡ some (errors_new "endpoint")
unfolding invoke respond fail run_before
endpoint_failed = refl

abbrev grpc_server : Grpc.Server ℕ ℕ ℕ ℕ ℕ ℕ
grpc_server = record {
  e = endpoint;
  dec = λ ctx request w. (record { request = request; err = none }, w);
  enc = λ ctx response w. (record { out = response; err = none }, w);
  before = [];
  after = (λ ctx mds w. ((ctx, ("k", "v" ∷ []) ∷ mds.0, mds.1), w)) ∷ [];
  finalizer = [];
  error_handler = λ ctx err w. (tt, w);
}

-- A connection that refuses headers.
abbrev refusing : Grpc.Library ℕ ℕ
refusing = record {
  from_incoming = λ ctx. none;
  send_header = λ ctx md w. (some (errors_new "header"), w);
  set_trailer = λ ctx md w. (none, w);
}

-- The outside is the number of calls of `cancel`.
abbrev remote : Remote ℕ ℕ ℕ
remote = record {
  cancel = λ w. suc w;
  close_body = λ r w. w;
  body_with_cancel = λ r w. w;
  with_response = λ r ctx. ctx;
}

abbrev client : Client ℕ ℕ ℕ ℕ ℕ ℕ
client = record {
  client = λ ctx r w. (failed (errors_new "refused"), w);
  req = λ ctx request w. (made request, w);
  dec = λ ctx r w. (record { response = r; err = none }, w);
  before = [];
  after = [];
  finalizer = [];
  buffered_stream = false;
}

counted : Cancels remote client
unfolding run_before
counted = record {
  count = λ w. w;
  count-cancel = λ w. refl;
  count-close_body = λ r w. refl;
  count-client = λ ctx r w. refl;
  count-req = λ ctx r w. refl;
  count-dec = λ ctx r w. refl;
  count-before = λ ctx r w. refl;
  count-after = λ ctx r w. refl;
}

-- A base64 that leaves bytes alone and a hash that does.
abbrev library : Library ℕ
library = record {
  decode_base64 = λ encoded. some encoded;
  sum256 = λ s. s;
  status_text = λ code. "Unauthorized";
  authorization = λ ctx. some (prefix ++ 1 ∷ 58 ∷ 2 ∷ []);
}

abbrev user : Bytes
user = 1 ∷ []

abbrev password : Bytes
password = 2 ∷ []

no_colon : index_byte user 58 ≡ none
unfolding index_byte
no_colon = refl

auth_middleware_credentials_example :
    auth_middleware library 0 user (3 ∷ []) "realm" endpoint 0 5 6 ≡ (
      if same_bytes user user && same_bytes password (3 ∷ []) then endpoint 0 5 6 else (
        record {
          response = 0;
          err = some (error_of (λ code. "Unauthorized") (record { realm = "realm" }));
        },
        6,
      ))
auth_middleware_credentials_example =
    auth_middleware_credentials library 0 endpoint user (3 ∷ []) "realm" (1 ∷ 58 ∷ 2 ∷ []) user
      password 0 5 6 refl refl no_colon
