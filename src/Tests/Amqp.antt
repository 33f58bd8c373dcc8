-- ===== src/Tests/Amqp.antt =====
-- transport/amqp on small inputs.
use mathlib.Core.Bool.{false≢true}
use kit_go.Prelude.{
  ℕ, suc, ◌≡◌, refl, false, Bytes, same_bytes, same_bytes_iff, List, [], ◌∷◌, ◌++◌, none, some,
}
use kit_go.Go.{errors_new}
use kit_go.Transport.Amqp.{Publishing, Delivery, Channel, Keys, Library, set_content_type}
use kit_go.Transport.Amqp.Subscriber.{
  Subscriber, default_response_publisher, default_error_encoder, serve_delivery,
}
use kit_go.Transport.Amqp.Subscriber.Answered.{before_each, decoded, serve_delivery-answered}
use kit_go.Transport.Amqp.Publisher.{delivery, ctx_done, wait}
use kit_go.Transport.Amqp.Publisher.Waiting.{Foreign, wait_first}

-- The outside is the list of the publishings that were sent.
abbrev Outside : Type 0
Outside = List (Publishing ℕ)

abbrev channel : Channel Outside ℕ ℕ
channel = record {
  publish = λ exchange key mandatory immediate msg w. (none, w ++ msg ∷ []);
  consume = λ queue consumer auto_ack exclusive no_local no_wait args w. (none, w);
}

abbrev keys : Keys ℕ ℕ
keys = record {
  exchange = λ ctx. none;
  with_exchange = λ exchange ctx. ctx;
  publish_key = λ ctx. none;
  with_publish_key = λ key ctx. ctx;
  nack_sleep_duration = λ ctx. none;
  with_nack_sleep_duration = λ duration ctx. ctx;
  auto_ack = λ ctx. none;
  with_auto_ack = λ auto_ack ctx. ctx;
  consume_args = λ ctx. none;
  with_consume_args = λ args ctx. ctx;
}

abbrev library : Library Outside ℕ ℕ
library = record {
  ack = λ deliv multiple w. [];
  nack = λ deliv multiple requeue w. w;
  sleep = λ d w. w;
  marshal_error = λ text. ([], none);
  intn = λ n w. (0, w);
  with_timeout = λ d ctx. ctx;
  cancel = λ w. w;
}

abbrev empty : Publishing ℕ
empty = record {
  reply_to = "";
  correlation_id = [];
  content_type = "";
  content_encoding = "";
  delivery_mode = 0;
  body = [];
  rest = 0;
}

abbrev request : Bytes → Delivery ℕ
request id = record { reply_to = "answers"; correlation_id = id; rest = 3 }

abbrev subscriber : Subscriber Outside ℕ ℕ ℕ ℕ ℕ ℕ
subscriber = record {
  e = λ ctx n w. (record { response = suc n; err = none }, w);
  dec = λ ctx deliv w. (record { request = deliv.rest; err = none }, w);
  enc = λ ctx pub' n w. (record { publishing = record pub' { body = n ∷ [] }; err = none }, w);
  before = set_content_type "text/plain" ∷ [];
  after = [];
  response_publisher = default_response_publisher keys;
  error_encoder = default_error_encoder;
  error_handler = λ ctx err w. w;
}

serve_delivery-answered_example :
    serve_delivery library 0 empty subscriber channel (request (7 ∷ [])) []
    ≡ library.cancel (
        decoded keys subscriber channel
          (request (7 ∷ []))
          (before_each (request (7 ∷ [])) subscriber.before ((0, empty), [])))
serve_delivery-answered_example =
    serve_delivery-answered keys subscriber channel (request (7 ∷ [])) library 0 empty [] refl

foreign : Foreign (7 ∷ []) (delivery (request (8 ∷ [])))
unfolding same_bytes
foreign e = false≢true ((same_bytes_iff (8 ∷ []) (7 ∷ [])).1 e)

wait_first_example :
    (wait library false
        (7 ∷ [])
        (delivery (request (8 ∷ [])) ∷ delivery (request (7 ∷ [])) ∷ [])
        (empty ∷ [])
      ≡ (some (record { deliv = some (request (7 ∷ [])); err = none }), []))
    × (wait library false
          (7 ∷ [])
          (delivery (request (8 ∷ [])) ∷ ctx_done (errors_new "deadline") ∷ [])
          (empty ∷ [])
        ≡ (some (record { deliv = none; err = some (errors_new "deadline") }), empty ∷ []))
wait_first_example =
    wait_first library false (7 ∷ []) (delivery (request (8 ∷ [])) ∷ []) [] (request (7 ∷ []))
      (errors_new "deadline") (empty ∷ []) (foreign, tt) refl
