-- ===== src/Transport/Amqp/Subscriber.antt =====
-- transport/amqp/subscriber.go
pub mod Answered
pub mod Replies
use kit_go.Prelude.{
  ℤ, String, Bytes, Bool, true, false, List, [], ◌∷◌, ◌++◌, Option, none, some, str_eq, is_empty,
  if◌then◌else◌,
}
use kit_go.Go.{Error, Act}
use kit_go.Endpoint.{Endpoint}
use kit_go.Transport.Common.{Decoded, apply_options}
use kit_go.Transport.Amqp.{
  Publishing, Delivery, Channel, Keys, Library, RequestFunc, SubscriberResponseFunc,
  run_request_funcs, run_response_funcs, get_publish_exchange, get_publish_key,
  get_nack_sleep_duration,
}

-- A publishing as it is left, and an error.
pub record Encoded (P : Type 0) : Type 0 where
  pub publishing : Publishing P
  pub err : Option Error

pub record Subscriber (W Ctx Req Res P D T : Type 0) : Type 0 where
  pub e : Endpoint W Ctx Req Res
  pub dec : Ctx → Delivery D → Act W (Decoded Req)
  pub enc : Ctx → Publishing P → Res → Act W (Encoded P)
  pub before : List (RequestFunc W Ctx P D)
  pub after : List (SubscriberResponseFunc W Ctx P D)
  pub response_publisher : Ctx → Delivery D → Channel W P T → Publishing P → Act W (Encoded P)
  pub error_encoder : Ctx → Error → Delivery D → Channel W P T → Publishing P → W → W
  pub error_handler : Ctx → Error → W → W

-- EncodeJSONResponse and GenericEncodeJSONResponse, over json.Marshal.
pub encode_json_response :
    {W Ctx Res P : Type 0}
    → (Res → Bytes × Option Error)
    → Ctx
    → Publishing P
    → Res
    → Act W (Encoded P)
encode_json_response marshal ctx pub' response w =
    let (b, err) = marshal response in
    elim err [
      | some e ↦ (record { publishing = pub'; err = some e }, w)
      | none ↦ (record { publishing = record pub' { body = b }; err = none }, w)
    ]

pub encode_nop_response : {W Ctx Res P : Type 0} → Ctx → Publishing P → Res → Act W (Encoded P)
encode_nop_response ctx pub' response w = (record { publishing = pub'; err = none }, w)

-- The correlation id and the destination that both publishers of replies choose.
addressed : {P D : Type 0} → Delivery D → Publishing P → Publishing P
addressed deliv pub' =
    if is_empty pub'.correlation_id
    then record pub' { correlation_id = deliv.correlation_id }
    else pub'

reply_key : {D : Type 0} → Delivery D → String → String
reply_key deliv key = if str_eq key "" then deliv.reply_to else key

module _ {W Ctx P D T : Type 0} (keys : Keys Ctx T) where
  pub default_response_publisher :
      Ctx → Delivery D → Channel W P T → Publishing P → Act W (Encoded P)
  unfolding addressed reply_key
  default_response_publisher ctx deliv ch pub' w =
      let pub'' = addressed deliv pub' in
      let reply_exchange = get_publish_exchange keys ctx in
      let reply_to = reply_key deliv (get_publish_key keys ctx) in
      let (err, w') = ch.publish reply_exchange reply_to false false pub'' w in
      (record { publishing = pub''; err = err }, w')

  pub nop_response_publisher : Ctx → Delivery D → Channel W P T → Publishing P → Act W (Encoded P)
  nop_response_publisher ctx deliv ch pub' w = (record { publishing = pub'; err = none }, w)

module _ {W Ctx P D T : Type 0} where
  pub default_error_encoder : Ctx → Error → Delivery D → Channel W P T → Publishing P → W → W
  default_error_encoder ctx err deliv ch pub' w = w

module _ {W Ctx P D T : Type 0} (keys : Keys Ctx T) (lib : Library W Ctx D) where
  pub single_nack_requeue_error_encoder :
      Ctx → Error → Delivery D → Channel W P T → Publishing P → W → W
  single_nack_requeue_error_encoder ctx err deliv ch pub' w =
      lib.sleep (get_nack_sleep_duration keys ctx) (lib.nack deliv false true w)

  pub reply_error_encoder : Ctx → Error → Delivery D → Channel W P T → Publishing P → W → W
  unfolding addressed reply_key
  reply_error_encoder ctx err deliv ch pub' w =
      let pub₁ = addressed deliv pub' in
      let reply_exchange = get_publish_exchange keys ctx in
      let reply_to = reply_key deliv (get_publish_key keys ctx) in
      let (b, failed) = lib.marshal_error err.message in
      elim failed [
        | some e ↦ w
        | none ↦ (ch.publish reply_exchange reply_to false false (record pub₁ { body = b }) w).1
      ]

  pub reply_and_ack_error_encoder : Ctx → Error → Delivery D → Channel W P T → Publishing P → W → W
  unfolding reply_error_encoder
  reply_and_ack_error_encoder ctx err deliv ch pub' w =
      lib.ack deliv false (reply_error_encoder ctx err deliv ch pub' w)

module _ {W Ctx Req Res P D T : Type 0} where
  -- NewSubscriber, over the handler of errors that logs nothing, and its options.
  pub new_subscriber :
      Keys Ctx T
      → (Ctx → Error → W → W)
      → Endpoint W Ctx Req Res
      → (Ctx → Delivery D → Act W (Decoded Req))
      → (Ctx → Publishing P → Res → Act W (Encoded P))
      → List (Subscriber W Ctx Req Res P D T → Subscriber W Ctx Req Res P D T)
      → Subscriber W Ctx Req Res P D T
  unfolding default_response_publisher default_error_encoder
  new_subscriber keys nop_handler e dec enc options = apply_options options (record {
    e = e;
    dec = dec;
    enc = enc;
    before = [];
    after = [];
    response_publisher = default_response_publisher keys;
    error_encoder = default_error_encoder;
    error_handler = nop_handler;
  })

  pub subscriber_before :
      List (RequestFunc W Ctx P D) → Subscriber W Ctx Req Res P D T → Subscriber W Ctx Req Res P D T
  subscriber_before before s = record s { before = s.before ++ before }

  pub subscriber_after :
      List (SubscriberResponseFunc W Ctx P D)
      → Subscriber W Ctx Req Res P D T
      → Subscriber W Ctx Req Res P D T
  subscriber_after after s = record s { after = s.after ++ after }

  pub subscriber_response_publisher :
      (Ctx → Delivery D → Channel W P T → Publishing P → Act W (Encoded P))
      → Subscriber W Ctx Req Res P D T
      → Subscriber W Ctx Req Res P D T
  subscriber_response_publisher rp s = record s { response_publisher = rp }

  pub subscriber_error_encoder :
      (Ctx → Error → Delivery D → Channel W P T → Publishing P → W → W)
      → Subscriber W Ctx Req Res P D T
      → Subscriber W Ctx Req Res P D T
  subscriber_error_encoder ee s = record s { error_encoder = ee }

  pub subscriber_error_handler :
      (Ctx → Error → W → W) → Subscriber W Ctx Req Res P D T → Subscriber W Ctx Req Res P D T
  subscriber_error_handler error_handler s = record s { error_handler = error_handler }

  -- s.errorHandler.Handle and s.errorEncoder
  pub fail :
      Subscriber W Ctx Req Res P D T
      → Channel W P T
      → Delivery D
      → Ctx
      → Error
      → Publishing P
      → W
      → W
  fail s ch deliv ctx err pub' w = s.error_encoder ctx err deliv ch pub' (s.error_handler ctx err w)

  -- From the functions after the endpoint on.
  pub reply :
      Subscriber W Ctx Req Res P D T → Channel W P T → Delivery D → Ctx → Publishing P → Res → W → W
  unfolding fail
  reply s ch deliv ctx pub' response w =
      let (r, w₁) = run_response_funcs s.after ctx deliv pub' w in
      let (encoded, w₂) = s.enc r.0 r.1 response w₁ in
      elim encoded.err [
        | some err ↦ fail s ch deliv r.0 err encoded.publishing w₂
        | none ↦
            let (sent, w₃) = s.response_publisher r.0 deliv ch encoded.publishing w₂ in
            elim sent.err [ some err ↦ fail s ch deliv r.0 err sent.publishing w₃ | none ↦ w₃ ]
      ]

  -- ServeDelivery, from the context that is to be cancelled and an empty Publishing up to the
  -- deferred call of cancel.
  pub respond :
      Subscriber W Ctx Req Res P D T → Channel W P T → Ctx → Publishing P → Delivery D → W → W
  unfolding fail reply
  respond s ch ctx pub' deliv w =
      let (r, w₁) = run_request_funcs s.before ctx pub' (some deliv) w in
      let (decoded, w₂) = s.dec r.0 deliv w₁ in
      elim decoded.err [
        | some err ↦ fail s ch deliv r.0 err r.1 w₂
        | none ↦
            let (answer, w₃) = s.e r.0 decoded.request w₂ in
            elim answer.err [
              | some err ↦ fail s ch deliv r.0 err r.1 w₃
              | none ↦ reply s ch deliv r.0 r.1 answer.response w₃
            ]
      ]

  -- ServeDelivery. `background` is the context before the functions in s.before, and `empty` the
  -- zero value of a Publishing.
  pub serve_delivery :
      Library W Ctx D
      → Ctx
      → Publishing P
      → Subscriber W Ctx Req Res P D T
      → Channel W P T
      → Delivery D
      → W
      → W
  unfolding respond
  serve_delivery lib background empty s ch deliv w =
      lib.cancel (respond s ch background empty deliv w)
