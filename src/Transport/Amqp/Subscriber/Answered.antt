-- ===== src/Transport/Amqp/Subscriber/Answered.antt =====
-- transport/amqp/subscriber.go: what ServeDelivery does with a delivery where replies are published by
-- DefaultResponsePublisher, as functions of the outside.
use mathlib.Core.List.{foldl}
use kit_go.Prelude.{
  ◌≡◌, refl, sym, ap, ◌∙◌, String, false, List, [], ◌∷◌, Option, none, some, Option-cases, inl, inr,
  str_eq, if◌then◌else◌,
}
use kit_go.Go.{Error}
use kit_go.Transport.Amqp.{
  Publishing, Delivery, Channel, Keys, Library, RequestFunc, SubscriberResponseFunc,
  run_request_funcs, run_response_funcs, get_publish_exchange, or_zero,
}
use kit_go.Transport.Amqp.Subscriber.{
  Subscriber, Encoded, addressed, reply_key, default_response_publisher, fail, reply, respond,
  serve_delivery,
}

module _ {P D : Type 0} (deliv : Delivery D) where
  -- The correlation id of a reply: its own, or that of the request.
  identified : Publishing P → Publishing P
  identified pub' = elim pub'.correlation_id [
    | [] ↦ record pub' { correlation_id = deliv.correlation_id }
    | c ∷ cs ↦ pub'
  ]

  addressed-identified : (pub' : Publishing P) → addressed deliv pub' ≡ identified pub'
  unfolding addressed identified
  addressed-identified pub' =
      elim pub'.correlation_id
        as (λ id.
          addressed deliv (record pub' { correlation_id = id })
          ≡ identified (record pub' { correlation_id = id })) [ [] ↦ refl | c ∷ cs ↦ refl ]

-- The key of a reply: that of the context, or else the reply address of the request.
key_or_reply_to : {D : Type 0} → Delivery D → Option String → String
key_or_reply_to deliv none = deliv.reply_to
key_or_reply_to deliv (some key) = if str_eq key "" then deliv.reply_to else key

module _ {W Ctx P D : Type 0} (deliv : Delivery D) where
  -- Each function gets the context, the publishing and the outside as the one before it left them.
  pub before_each :
      List (RequestFunc W Ctx P D) → (Ctx × Publishing P) × W → (Ctx × Publishing P) × W
  before_each fs t = foldl (λ u f. f u.0.0 u.0.1 (some deliv) u.1) t fs

  after_each :
      List (SubscriberResponseFunc W Ctx P D) → (Ctx × Publishing P) × W → (Ctx × Publishing P) × W
  after_each fs t = foldl (λ u f. f u.0.0 deliv u.0.1 u.1) t fs

  run_request_funcs-each :
      (fs : List (RequestFunc W Ctx P D)) (ctx : Ctx) (pub' : Publishing P) (w : W)
      → run_request_funcs fs ctx pub' (some deliv) w ≡ before_each fs ((ctx, pub'), w)
  unfolding run_request_funcs before_each
  run_request_funcs-each [] ctx pub' w = refl
  run_request_funcs-each (f ∷ fs) ctx pub' w =
      let (r, w') = f ctx pub' (some deliv) w in run_request_funcs-each fs r.0 r.1 w'

  run_response_funcs-each :
      (fs : List (SubscriberResponseFunc W Ctx P D)) (ctx : Ctx) (pub' : Publishing P) (w : W)
      → run_response_funcs fs ctx deliv pub' w ≡ after_each fs ((ctx, pub'), w)
  unfolding run_response_funcs after_each
  run_response_funcs-each [] ctx pub' w = refl
  run_response_funcs-each (f ∷ fs) ctx pub' w =
      let (r, w') = f ctx deliv pub' w in run_response_funcs-each fs r.0 r.1 w'

module _ {W Ctx Req Res P D T : Type 0} (keys : Keys Ctx T) (s : Subscriber W Ctx Req Res P D T)
    (ch : Channel W P T) (deliv : Delivery D) where
  -- An error goes to the handler of errors and then to the encoder of errors.
  refused : Ctx → Error → Publishing P → W → W
  refused ctx err pub' x = s.error_encoder ctx err deliv ch pub' (s.error_handler ctx err x)

  -- A publishing goes to the exchange of the context.
  sent_to : Ctx → String → Publishing P → W → W
  unfolding refused
  sent_to ctx key pub' x =
      let (err, x') = ch.publish (get_publish_exchange keys ctx) key false false pub' x in
      elim err [ some e ↦ refused ctx e pub' x' | none ↦ x' ]

  published : Ctx → Publishing P → W → W
  unfolding sent_to identified key_or_reply_to
  published ctx pub' x =
      sent_to ctx (key_or_reply_to deliv (keys.publish_key ctx)) (identified deliv pub') x

  -- The encoder, from where the functions after the endpoint end.
  encoded : Res → (Ctx × Publishing P) × W → W
  unfolding refused published
  encoded response t =
      let (e, x) = s.enc t.0.0 t.0.1 response t.1 in
      elim e.err [
        | some err ↦ refused t.0.0 err e.publishing x
        | none ↦ published t.0.0 e.publishing x
      ]

  -- The endpoint.
  asked : Ctx → Publishing P → Req → W → W
  unfolding refused encoded after_each
  asked ctx pub' request x =
      let (answer, x') = s.e ctx request x in
      elim answer.err [
        | some err ↦ refused ctx err pub' x'
        | none ↦ encoded answer.response (after_each deliv s.after ((ctx, pub'), x'))
      ]

  -- The decoder, from where the functions before it end.
  pub decoded : (Ctx × Publishing P) × W → W
  unfolding refused asked
  decoded t =
      let (d, x) = s.dec t.0.0 deliv t.1 in
      elim d.err [ some err ↦ refused t.0.0 err t.0.1 x | none ↦ asked t.0.0 t.0.1 d.request x ]

  reply_key-key_or_reply_to :
      (key : Option String) → reply_key deliv (or_zero "" key) ≡ key_or_reply_to deliv key
  unfolding reply_key key_or_reply_to
  reply_key-key_or_reply_to none = refl
  reply_key-key_or_reply_to (some key) = refl

  -- What comes after the call of the publisher.
  settled : Ctx → Encoded P × W → W
  unfolding refused
  settled ctx (sent, x) = elim sent.err [ some err ↦ refused ctx err sent.publishing x | none ↦ x ]

  default_published :
      (ctx : Ctx) (pub' : Publishing P) (x : W)
      → settled ctx (default_response_publisher keys ctx deliv ch pub' x) ≡ published ctx pub' x
  unfolding default_response_publisher published settled sent_to
  default_published ctx pub' x =
      ap (λ key. sent_to ctx key (addressed deliv pub') x)
        (reply_key-key_or_reply_to (keys.publish_key ctx))
      ∙ ap (λ m. sent_to ctx (key_or_reply_to deliv (keys.publish_key ctx)) m x)
          (addressed-identified deliv pub')

  reply-encoded :
      (ctx : Ctx) (pub' : Publishing P) (response : Res) (x : W)
      → s.response_publisher ≡ default_response_publisher keys
      → reply s ch deliv ctx pub' response x
        ≡ encoded response (run_response_funcs s.after ctx deliv pub' x)
  unfolding reply encoded refused fail settled
  reply-encoded ctx pub' response x h =
      let (r, x') = run_response_funcs s.after ctx deliv pub' x in
      let (e, x'') = s.enc r.0 r.1 response x' in
      elim (Option-cases e.err) [
        | inr (err, p) ↦ simp (p, reply, encoded)
        | inl p ↦
            let ok : reply s ch deliv ctx pub' response x
                ≡ settled r.0 (s.response_publisher r.0 deliv ch e.publishing x'') =
              simp (p, reply) in
            let right : encoded response (r, x') ≡ published r.0 e.publishing x'' =
              simp (p, encoded) in
            ok
            ∙ ap (λ publisher. settled r.0 (publisher r.0 deliv ch e.publishing x'')) h
            ∙ default_published r.0 e.publishing x''
            ∙ sym right
      ]

  respond-decoded :
      (ctx : Ctx) (pub' : Publishing P) (x : W)
      → s.response_publisher ≡ default_response_publisher keys
      → respond s ch ctx pub' deliv x ≡ decoded (run_request_funcs s.before ctx pub' (some deliv) x)
  unfolding respond decoded asked refused fail
  respond-decoded ctx pub' x h =
      let (r, x') = run_request_funcs s.before ctx pub' (some deliv) x in
      let (d, x'') = s.dec r.0 deliv x' in
      let (answer, y) = s.e r.0 d.request x'' in
      elim (Option-cases d.err) [
        | inr (err, p) ↦ simp (p, respond, decoded)
        | inl p ↦ elim (Option-cases answer.err) [
          | inr (err, q) ↦ simp (p, q, respond, decoded, asked)
          | inl q ↦
              let ok : respond s ch ctx pub' deliv x ≡ reply s ch deliv r.0 r.1 answer.response y =
                simp (p, q, respond) in
              let right : decoded (r, x')
                  ≡ encoded answer.response (after_each deliv s.after (r, y)) =
                simp (p, q, decoded, asked) in
              ok
              ∙ reply-encoded r.0 r.1 answer.response y h
              ∙ ap (encoded answer.response) (run_response_funcs-each deliv s.after r.0 r.1 y)
              ∙ sym right
        ]
      ]

  -- A subscriber with the default publisher calls the functions before the decoder, the decoder, the
  -- endpoint, the functions after it and the encoder, each on the context, the publishing and the
  -- outside that those before it left. Then it publishes once, to the exchange of the context, with
  -- the key of the context or else the reply address of the request, and with the correlation id
  -- that the publishing has or else that of the request. At the first error, that of the publishing
  -- included, it stops, and the error goes to the handler and then to the encoder of errors, with the
  -- publishing as it is. In the end the context is cancelled.
  pub serve_delivery-answered :
      (lib : Library W Ctx D) (background : Ctx) (empty : Publishing P) (x : W)
      → s.response_publisher ≡ default_response_publisher keys
      → serve_delivery lib background empty s ch deliv x
        ≡ lib.cancel (decoded (before_each deliv s.before ((background, empty), x)))
  unfolding serve_delivery
  serve_delivery-answered lib background empty x h = ap lib.cancel (
      respond-decoded background empty x h
      ∙ ap decoded (run_request_funcs-each deliv s.before background empty x))
