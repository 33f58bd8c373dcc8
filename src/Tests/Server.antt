-- ===== src/Tests/Server.antt =====
-- transport/http on small inputs.
use kit_go.Prelude.{ℕ, zero, suc, ◌+◌, ◌≡◌, true, false, List, [], ◌∷◌, ◌++◌, none, some, length}
use kit_go.Go.{errors_new}
use kit_go.Transport.Http.Interfaces.{flusher, reimplement, implements, implements-reimplement, has}
use kit_go.Transport.Http.Writer.{
  ResponseWriter, done, write_header, write, exec, exec_intercepted, status_ok,
}
use kit_go.Transport.Http.Writer.Counting.{code_after, accepted, exec_intercepted-exec}
use kit_go.Transport.Http.Server.{Server, serve_http, respond, default_error_encoder}
use kit_go.Transport.Http.Server.Finalizers.{finalized, serve_http-finalized}
use kit_go.Transport.Http.Server.Answered.{answered, respond-answered}

-- What a client has got: the status codes and the number of bytes. It takes all of them.
abbrev Client : Type 0
Client = List ℕ × ℕ

abbrev client_writer : ResponseWriter Client
client_writer = record {
  set_header = λ k v w. w;
  add_header = λ k v w. w;
  write_header = λ code w. (w.0 ++ code ∷ [], w.1);
  write = λ p w. (record { n = length p; err = none }, (w.0, w.1 + length p));
  read_from = none;
}

abbrev nobody : Client
nobody = ([], 0)

-- The number in the place of a request says what fails.
abbrev server : Server Client ℕ ℕ ℕ ℕ
server = record {
  e = λ ctx request w. elim request [
    | zero ↦ (record { response = 0; err = some (errors_new "endpoint") }, w)
    | suc n ↦ (record { response = n; err = none }, w)
  ];
  dec = λ ctx r w. elim r [
    | zero ↦ (record { request = 0; err = some (errors_new "decode") }, w)
    | suc n ↦ (record { request = n; err = none }, w)
  ];
  enc = λ ctx response. write_header 201 (write (1 ∷ 2 ∷ []) (λ sent. done none));
  before = [];
  after = [];
  error_encoder = λ ctx err.
      default_error_encoder
        (record { text = 9 ∷ []; marshal_json = none; headers = none; status_code = none });
  finalizer = (λ ctx code r w. (tt, (w.0 ++ code ∷ [], w.1))) ∷ [];
  error_handler = λ ctx err w. (tt, w);
}

abbrev with_size : Client → ℕ → ℕ → ℕ
with_size w size ctx = size

exec_intercepted-exec_example :
    exec_intercepted client_writer (respond server 0 2) (nobody, record { code = 200; written = 5 })
    ≡ (
      (exec client_writer (respond server 0 2) nobody).0,
      (
        (exec client_writer (respond server 0 2) nobody).1,
        record {
          code = code_after client_writer (respond server 0 2) 200 nobody;
          written = 5 + accepted client_writer (respond server 0 2) nobody;
        },
      ),
    )
exec_intercepted-exec_example =
    exec_intercepted-exec client_writer (respond server 0 2) nobody
      (record { code = 200; written = 5 })

serve_http-finalized_example :
    serve_http client_writer with_size server 0 2 nobody
    ≡ finalized server.finalizer
        (accepted client_writer (respond server 0 2) nobody)
        (code_after client_writer (respond server 0 2) status_ok nobody)
        2
        (exec client_writer (respond server 0 2) nobody).1
serve_http-finalized_example = serve_http-finalized client_writer with_size server 0 2 nobody

-- The context counts the functions that were called.
abbrev counting : Server Client ℕ ℕ ℕ ℕ
counting = record server {
  before = (λ ctx r w. (ctx + 1, w)) ∷ [];
  after = (λ ctx. write_header 103 (done (ctx + 1))) ∷ (λ ctx. done (ctx + 1)) ∷ [];
}

respond-answered_example :
    exec client_writer (respond counting 0 2) nobody ≡ answered client_writer counting 0 2 nobody
respond-answered_example = respond-answered client_writer counting 0 2 nobody

implements-reimplement_example :
    implements (reimplement true false false true false) flusher
    ≡ has true false false true false flusher
implements-reimplement_example = implements-reimplement true false false true false flusher
