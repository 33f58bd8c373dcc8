-- ===== src/Transport/Amqp.antt =====
-- transport/amqp: request_response_func.go and util.go, and what the two sides share. Of a
-- Publishing and a Delivery the fields that the package uses are written out, and `P` and `D` stand
-- for the others; a correlation id is a list of bytes.
pub mod Subscriber
pub mod Publisher
use kit_go.Prelude.{
  ℕ, zero, suc, ◌+◌, ◌-◌, ◌%◌, ℤ, pos, String, Bytes, Bool, false, List, [], ◌∷◌, Option, none,
  some, ◌≡◌,
}
use kit_go.Go.{Error, Act}

pub record Publishing (P : Type 0) : Type 0 where
  pub reply_to : String
  pub correlation_id : Bytes
  pub content_type : String
  pub content_encoding : String
  pub delivery_mode : ℕ
  pub body : Bytes
  pub rest : P

pub record Delivery (D : Type 0) : Type 0 where
  pub reply_to : String
  pub correlation_id : Bytes
  pub rest : D

-- What a call of Consume returns: the channel of the deliveries, which is not looked at here, or an
-- error.
pub record Channel (W P T : Type 0) : Type 0 where
  pub publish : String → String → Bool → Bool → Publishing P → Act W (Option Error)
  pub consume : String → String → Bool → Bool → Bool → Bool → Option T → Act W (Option Error)

-- The values that the package context holds for the keys of this package; `T` is amqp.Table.
pub record Keys (Ctx T : Type 0) : Type 0 where
  pub exchange : Ctx → Option String
  pub with_exchange : String → Ctx → Ctx
  pub publish_key : Ctx → Option String
  pub with_publish_key : String → Ctx → Ctx
  pub nack_sleep_duration : Ctx → Option ℤ
  pub with_nack_sleep_duration : ℤ → Ctx → Ctx
  pub auto_ack : Ctx → Option Bool
  pub with_auto_ack : Bool → Ctx → Ctx
  pub consume_args : Ctx → Option T
  pub with_consume_args : T → Ctx → Ctx

-- What the package takes of others: the methods of a delivery, time.Sleep, json.Marshal of a
-- DefaultErrorResponse, rand.Intn, and context.WithTimeout with the call of its cancel.
pub record Library (W Ctx D : Type 0) : Type 0 where
  pub ack : Delivery D → Bool → W → W
  pub nack : Delivery D → Bool → Bool → W → W
  pub sleep : ℤ → W → W
  pub marshal_error : String → Bytes × Option Error
  pub intn : ℕ → Act W ℕ
  pub with_timeout : ℤ → Ctx → Ctx
  pub cancel : W → W

-- RequestFunc, on the publishing that it may change.
abbrev pub RequestFunc : Type 0 → Type 0 → Type 0 → Type 0 → Type 0
RequestFunc W Ctx P D = Ctx → Publishing P → Option (Delivery D) → Act W (Ctx × Publishing P)

-- SubscriberResponseFunc, which has the channel in its closure.
abbrev pub SubscriberResponseFunc : Type 0 → Type 0 → Type 0 → Type 0 → Type 0
SubscriberResponseFunc W Ctx P D = Ctx → Delivery D → Publishing P → Act W (Ctx × Publishing P)

module _ {W Ctx P D : Type 0} where
  -- for _, f := range before
  unfoldable pub run_request_funcs : List (RequestFunc W Ctx P D) → RequestFunc W Ctx P D
  run_request_funcs [] ctx pub' deliv w = ((ctx, pub'), w)
  run_request_funcs (f ∷ fs) ctx pub' deliv w =
      let (r, w') = f ctx pub' deliv w in run_request_funcs fs r.0 r.1 deliv w'

  -- for _, f := range s.after
  unfoldable pub run_response_funcs :
      List (SubscriberResponseFunc W Ctx P D) → SubscriberResponseFunc W Ctx P D
  run_response_funcs [] ctx deliv pub' w = ((ctx, pub'), w)
  run_response_funcs (f ∷ fs) ctx deliv pub' w =
      let (r, w') = f ctx deliv pub' w in run_response_funcs fs r.0 deliv r.1 w'

  pub set_publish_delivery_mode : ℕ → RequestFunc W Ctx P D
  set_publish_delivery_mode dmode ctx pub' deliv w =
      ((ctx, record pub' { delivery_mode = dmode }), w)

  pub set_content_type : String → RequestFunc W Ctx P D
  set_content_type content_type ctx pub' deliv w =
      ((ctx, record pub' { content_type = content_type }), w)

  pub set_content_encoding : String → RequestFunc W Ctx P D
  set_content_encoding content_encoding ctx pub' deliv w =
      ((ctx, record pub' { content_encoding = content_encoding }), w)

  -- SetCorrelationID
  pub set_correlation_id : Bytes → RequestFunc W Ctx P D
  set_correlation_id cid ctx pub' deliv w = ((ctx, record pub' { correlation_id = cid }), w)

module _ {W Ctx P D T : Type 0} (keys : Keys Ctx T) where
  pub set_publish_exchange : String → RequestFunc W Ctx P D
  set_publish_exchange exchange ctx pub' deliv w = ((keys.with_exchange exchange ctx, pub'), w)

  pub set_publish_key : String → RequestFunc W Ctx P D
  set_publish_key key ctx pub' deliv w = ((keys.with_publish_key key ctx, pub'), w)

  pub set_nack_sleep_duration : ℤ → RequestFunc W Ctx P D
  set_nack_sleep_duration duration ctx pub' deliv w =
      ((keys.with_nack_sleep_duration duration ctx, pub'), w)

  pub set_consume_auto_ack : Bool → RequestFunc W Ctx P D
  set_consume_auto_ack auto_ack ctx pub' deliv w = ((keys.with_auto_ack auto_ack ctx, pub'), w)

  pub set_consume_args : T → RequestFunc W Ctx P D
  set_consume_args args ctx pub' deliv w = ((keys.with_consume_args args ctx, pub'), w)

pub set_ack_after_endpoint :
    {W Ctx P D : Type 0} → Library W Ctx D → Bool → SubscriberResponseFunc W Ctx P D
set_ack_after_endpoint lib multiple ctx deliv pub' w = ((ctx, pub'), lib.ack deliv multiple w)

module _ {W Ctx D : Type 0} (lib : Library W Ctx D) where
  -- randInt
  unfoldable pub rand_int : ℕ → ℕ → Act W ℕ
  rand_int min max w = let (n, w') = lib.intn (max - min) w in (min + n, w')

  -- randomString
  unfoldable pub random_string : ℕ → Act W Bytes
  unfolding rand_int
  random_string zero w = ([], w)
  random_string (suc l) w =
      let (n, w₁) = rand_int 65 90 w in
      let (bytes, w₂) = random_string l w₁ in (n % 256 ∷ bytes, w₂)

abbrev pub or_zero {ℓ} : {A : Type ℓ} → A → Option A → A
or_zero zero_value none = zero_value
or_zero zero_value (some a) = a

module _ {Ctx T : Type 0} (keys : Keys Ctx T) where
  abbrev pub get_publish_exchange : Ctx → String
  get_publish_exchange ctx = or_zero "" (keys.exchange ctx)

  abbrev pub get_publish_key : Ctx → String
  get_publish_key ctx = or_zero "" (keys.publish_key ctx)

  abbrev pub get_nack_sleep_duration : Ctx → ℤ
  get_nack_sleep_duration ctx = or_zero (pos 0) (keys.nack_sleep_duration ctx)

  abbrev pub get_consume_auto_ack : Ctx → Bool
  get_consume_auto_ack ctx = or_zero false (keys.auto_ack ctx)

  -- getConsumeArgs, where nil is `none`.
  abbrev pub get_consume_args : Ctx → Option T
  get_consume_args ctx = keys.consume_args ctx
