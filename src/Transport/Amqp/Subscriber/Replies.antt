-- ===== src/Transport/Amqp/Subscriber/Replies.antt =====
-- transport/amqp/subscriber.go: errors are sent where replies are.
use kit_go.Prelude.{◌≡◌, arith, Bytes, none}
use kit_go.Go.{Error}
use kit_go.Transport.Amqp.{Publishing, Delivery, Channel, Keys, Library}
use kit_go.Transport.Amqp.Subscriber.{addressed, default_response_publisher, reply_error_encoder}

module _ {W Ctx P D T : Type 0} (keys : Keys Ctx T) (ch : Channel W P T) (deliv : Delivery D) where
  -- If the text of an error can be marshalled, ReplyErrorEncoder publishes it just as
  -- DefaultResponsePublisher publishes a response with that body.
  pub reply_error_encoder-default_response_publisher :
      (lib : Library W Ctx D) (ctx : Ctx) (err : Error) (pub' : Publishing P) (b : Bytes) (w : W)
      → lib.marshal_error err.message ≡ (b, none)
      → reply_error_encoder keys lib ctx err deliv ch pub' w
        ≡ (default_response_publisher keys ctx deliv ch (record pub' { body = b }) w).1
  unfolding reply_error_encoder default_response_publisher addressed
  reply_error_encoder-default_response_publisher lib ctx err pub' b w e = ground (arith, e)
