-- ===== src/Transport/Nats/Silent.antt =====
-- Messages that ask for no reply.
use kit_go.Prelude.{String, ◌≡◌, true, Option, arith, str_eq}
use kit_go.Go.{Error, Act}
use kit_go.Transport.Nats.{Subscriber, fail, respond, serve_msg}

-- A message without a reply subject is served without a call of the encoders: they could be any
-- others.
pub serve_msg_silent :
    {W Ctx Req Res Msg : Type 0} (reply_of : Msg → String) (s : Subscriber W Ctx Req Res Msg)
    (enc : Ctx → String → Res → Act W (Option Error))
    (error_encoder : Ctx → Error → String → Act W (Unit {0})) (background : Ctx) (msg : Msg) (w : W)
    → str_eq (reply_of msg) "" ≡ true
    → serve_msg reply_of (record s { enc = enc; error_encoder = error_encoder }) background msg w
      ≡ serve_msg reply_of s background msg w
unfolding serve_msg respond fail
serve_msg_silent reply_of s enc error_encoder background msg w h = ground (arith, h)
