-- ===== src/Transport/Amqp/Publisher.antt =====
-- transport/amqp/publisher.go. What the rounds of the select in DefaultDeliverer take is a list:
-- an endpoint whose rounds are not decided by it still waits.
pub mod Waiting
pub mod Correlation
use kit_go.Prelude.{
  ℤ, pos, String, Bytes, same_bytes, Bool, false, List, [], ◌∷◌, ◌++◌, Option, none, some,
  if◌then◌else◌,
}
use kit_go.Go.{Error, Act}
use kit_go.Transport.Common.{Decoded, apply_options}
use kit_go.Transport.Amqp.{
  Publishing, Delivery, Channel, Keys, Library, RequestFunc, run_request_funcs,
  get_publish_exchange, get_publish_key, get_consume_auto_ack, get_consume_args, rand_int,
  random_string,
}
use kit_go.Transport.Amqp.Subscriber.{Encoded}

-- What a deliverer returns: a delivery, or nil, and an error.
pub record Delivered (D : Type 0) : Type 0 where
  pub deliv : Option (Delivery D)
  pub err : Option Error

-- What a round of the select takes: a delivery, which is the zero value on a closed channel, or
-- that the context is done, with its error.
pub data Event (D : Type 0) : Type 0 where
  delivery : Delivery D → Event D
  ctx_done : Error → Event D

-- Deliverer, which of the publisher uses the channel and the name of the queue. It returns `none`
-- while it waits.
abbrev pub Deliverer : Type 0 → Type 0 → Type 0 → Type 0 → Type 0 → Type 0
Deliverer W Ctx P D T = Ctx → Channel W P T → String → Publishing P → Act W (Option (Delivered D))

-- The field q is the name of the queue.
pub record Publisher (W Ctx Req Res P D T : Type 0) : Type 0 where
  pub ch : Channel W P T
  pub q : String
  pub enc : Ctx → Publishing P → Req → Act W (Encoded P)
  pub dec : Ctx → Option (Delivery D) → Act W (Decoded Res)
  pub before : List (RequestFunc W Ctx P D)
  pub after : List (Ctx → Option (Delivery D) → Act W Ctx)
  pub deliverer : Deliverer W Ctx P D T
  pub timeout : ℤ

module _ {W Ctx D : Type 0} (lib : Library W Ctx D) where
  -- The loop of DefaultDeliverer.
  pub wait : Bool → Bytes → List (Event D) → Act W (Option (Delivered D))
  wait auto_ack id [] w = (none, w)
  wait auto_ack id (ctx_done err ∷ events) w = (some (record { deliv = none; err = some err }), w)
  wait auto_ack id (delivery d ∷ events) w =
      let rest = wait auto_ack id events w in
      if same_bytes d.correlation_id id
      then (
        some (record { deliv = some d; err = none }),
        (if auto_ack then w else lib.ack d false w),
      )
      else rest

module _ {W Ctx P D T : Type 0} (lib : Library W Ctx D) (keys : Keys Ctx T) where
  pub default_deliverer : List (Event D) → Deliverer W Ctx P D T
  unfolding wait
  default_deliverer events ctx ch q pub' w =
      let exchange = get_publish_exchange keys ctx in
      let (failed, w₁) = ch.publish exchange (get_publish_key keys ctx) false false pub' w in
      elim failed [
        | some err ↦ (some (record { deliv = none; err = some err }), w₁)
        | none ↦
            let auto_ack = get_consume_auto_ack keys ctx in
            let args = get_consume_args keys ctx in
            let (refused, w₂) = ch.consume q "" auto_ack false false false args w₁ in
            elim refused [
              | some err ↦ (some (record { deliv = none; err = some err }), w₂)
              | none ↦ wait lib auto_ack pub'.correlation_id events w₂
            ]
      ]

pub send_and_forget_deliverer : {W Ctx P D T : Type 0} → Keys Ctx T → Deliverer W Ctx P D T
send_and_forget_deliverer keys ctx ch q pub' w =
    let exchange = get_publish_exchange keys ctx in
    let (err, w') = ch.publish exchange (get_publish_key keys ctx) false false pub' w in
    (some (record { deliv = none; err = err }), w')

-- 10 * time.Second, in nanoseconds
abbrev pub ten_seconds : ℤ
ten_seconds = pos 10000000000

-- for _, f := range p.after
unfoldable pub run_after :
    {W Ctx D : Type 0}
    → List (Ctx → Option (Delivery D) → Act W Ctx)
    → Ctx
    → Option (Delivery D)
    → Act W Ctx
run_after [] ctx deliv w = (ctx, w)
run_after (f ∷ fs) ctx deliv w = let (ctx', w') = f ctx deliv w in run_after fs ctx' deliv w'

-- The correlation id of a request.
pub new_correlation_id : {W Ctx D : Type 0} → Library W Ctx D → Act W Bytes
unfolding rand_int random_string
new_correlation_id lib w = let (l, w₁) = rand_int lib 5 255 w in random_string lib l w₁

module _ {W Ctx Req Res P D T : Type 0} where
  -- NewPublisher and its options.
  pub new_publisher :
      Library W Ctx D
      → Keys Ctx T
      → List (Event D)
      → Channel W P T
      → String
      → (Ctx → Publishing P → Req → Act W (Encoded P))
      → (Ctx → Option (Delivery D) → Act W (Decoded Res))
      → List (Publisher W Ctx Req Res P D T → Publisher W Ctx Req Res P D T)
      → Publisher W Ctx Req Res P D T
  unfolding default_deliverer
  new_publisher lib keys events ch q enc dec options = apply_options options (record {
    ch = ch;
    q = q;
    enc = enc;
    dec = dec;
    before = [];
    after = [];
    deliverer = default_deliverer lib keys events;
    timeout = ten_seconds;
  })

  pub publisher_before :
      List (RequestFunc W Ctx P D) → Publisher W Ctx Req Res P D T → Publisher W Ctx Req Res P D T
  publisher_before before p = record p { before = p.before ++ before }

  pub publisher_after :
      List (Ctx → Option (Delivery D) → Act W Ctx)
      → Publisher W Ctx Req Res P D T
      → Publisher W Ctx Req Res P D T
  publisher_after after p = record p { after = p.after ++ after }

  pub publisher_deliverer :
      Deliverer W Ctx P D T → Publisher W Ctx Req Res P D T → Publisher W Ctx Req Res P D T
  publisher_deliverer deliverer p = record p { deliverer = deliverer }

  pub publisher_timeout : ℤ → Publisher W Ctx Req Res P D T → Publisher W Ctx Req Res P D T
  publisher_timeout timeout p = record p { timeout = timeout }

  -- From the deliverer's return on; the zero value of the response type is a parameter.
  receive :
      Res
      → Publisher W Ctx Req Res P D T
      → Ctx
      → Delivered D
      → Act W (record { response : Res; err : Option Error })
  receive zero_value p ctx delivered w = elim delivered.err [
    | some err ↦ (record { response = zero_value; err = some err }, w)
    | none ↦
        let (ctx', w₁) = run_after p.after ctx delivered.deliv w in
        let (decoded, w₂) = p.dec ctx' delivered.deliv w₁ in
        elim decoded.err [
          | some err ↦ (record { response = zero_value; err = some err }, w₂)
          | none ↦ (record { response = decoded.request; err = none }, w₂)
        ]
  ]

  -- The endpoint up to the deferred call of cancel, on the first publishing.
  pub call :
      Res
      → Publisher W Ctx Req Res P D T
      → Ctx
      → Publishing P
      → Req
      → Act W (Option (record { response : Res; err : Option Error }))
  unfolding receive
  call zero_value p ctx pub' request w =
      let (encoded, w₁) = p.enc ctx pub' request w in
      elim encoded.err [
        | some err ↦ (some (record { response = zero_value; err = some err }), w₁)
        | none ↦
            let (r, w₂) = run_request_funcs p.before ctx encoded.publishing none w₁ in
            let (delivered, w₃) = p.deliverer r.0 p.ch p.q r.1 w₂ in
            elim delivered [
              | none ↦ (none, w₃)
              | some d ↦ let (answer, w₄) = receive zero_value p r.0 d w₃ in (some answer, w₄)
            ]
      ]

  -- Publisher.Endpoint; `empty` is the zero value of a Publishing.
  pub endpoint :
      Library W Ctx D
      → Res
      → Publishing P
      → Publisher W Ctx Req Res P D T
      → Ctx
      → Req
      → Act W (Option (record { response : Res; err : Option Error }))
  unfolding call new_correlation_id
  endpoint lib zero_value empty p ctx request w =
      let ctx' = lib.with_timeout p.timeout ctx in
      let (id, w₁) = new_correlation_id lib w in
      let pub' = record empty { reply_to = p.q; correlation_id = id } in
      let (answer, w₂) = call zero_value p ctx' pub' request w₁ in
      elim answer [ none ↦ (none, w₂) | some a ↦ (some a, lib.cancel w₂) ]
