-- ===== src/Transport/Amqp/Publisher/Waiting.antt =====
-- transport/amqp/publisher.go: what the loop of DefaultDeliverer waits for.
use kit_go.Prelude.{
  ◌≡◌, ◌≢◌, refl, Bytes, same_bytes, same_bytes_iff, Bool, false, List, [], ◌∷◌, ◌++◌, none, some,
  All, Bool-cases, inl, inr, if◌then◌else◌,
}
use kit_go.Go.{Error}
use kit_go.Transport.Amqp.{Delivery, Library}
use kit_go.Transport.Amqp.Publisher.{Event, delivery, ctx_done, wait}

-- A delivery for another request.
abbrev pub Foreign : {D : Type 0} → Bytes → Event D → Type 0
Foreign id (delivery d) = d.correlation_id ≢ id
Foreign id (ctx_done err) = ⊥

module _ {W Ctx D : Type 0} (lib : Library W Ctx D) (auto_ack : Bool) (id : Bytes) where
  wait-Foreign :
      (before events : List (Event D)) (w : W)
      → All (Foreign id) before
      → wait lib auto_ack id (before ++ events) w ≡ wait lib auto_ack id events w
  unfolding wait
  wait-Foreign [] events w h = refl
  wait-Foreign (delivery d ∷ before) events w (p, h) =
      elim (Bool-cases (same_bytes d.correlation_id id)) [
        | inl e ↦ elim (p ((same_bytes_iff d.correlation_id id).0 e)) [ ]
        | inr e ↦ rw (e) (wait-Foreign before events w h)
      ]
  wait-Foreign (ctx_done err ∷ before) events w (p, h) = elim p [ ]

  -- After any number of deliveries for other requests, which it does not acknowledge, the loop
  -- returns the first delivery with the id, acknowledged unless the channel does that, or, if the
  -- context is done before, its error and no delivery.
  pub wait_first :
      (before after : List (Event D)) (d : Delivery D) (err : Error) (w : W)
      → All (Foreign id) before
      → d.correlation_id ≡ id
      → (wait lib auto_ack id (before ++ delivery d ∷ after) w ≡ (
        some (record { deliv = some d; err = none }),
        (if auto_ack then w else lib.ack d false w),
      ))
        × (wait lib auto_ack id (before ++ ctx_done err ∷ after) w
            ≡ (some (record { deliv = none; err = some err }), w))
  unfolding wait
  wait_first before after d err w h e = (
    rw (wait-Foreign before (delivery d ∷ after) w h, (same_bytes_iff d.correlation_id id).1 e),
    wait-Foreign before (ctx_done err ∷ after) w h,
  )
