-- ===== src/Transport/Jsonrpc/Client/Closed.antt =====
-- transport/http/jsonrpc/client.go: what a call of the client has closed and cancelled at its end.
use kit_go.Prelude.{
  ℕ, ◌+◌, ◌≡◌, refl, Bool, arith, ◌∙◌, ◌⊎◌, inl, inr, Option, none, some, Option-cases,
  if◌then◌else◌,
}
use kit_go.Go.{Act}
use kit_go.Transport.Common.{run_before}
use kit_go.Transport.Jsonrpc.{Failure, Response, version}
use kit_go.Transport.Jsonrpc.Client.{
  ClientRequest, Client, Library, Got, got, failed, Ended, close, receive, send, call, finalize,
  client_endpoint,
}

-- A count, to which a call of `cancel` adds `cancels`, a call of Close adds `closes`, and nothing
-- else that a client runs adds anything.
pub record Counts {W Ctx Req Res HttpReq HttpRes F J : Type 0}
    (lib : Library W Ctx HttpReq HttpRes F J) (c : Client W Ctx Req Res HttpReq HttpRes F J)
    (cancels closes : ℕ) : Type 0 where
  pub count : W → ℕ
  pub count-cancel : (w : W) → count (lib.cancel w) ≡ cancels + count w
  pub count-close_body : (r : HttpRes) (w : W) → count (lib.close_body r w) ≡ closes + count w
  pub count-new_request : (w : W) → count (lib.new_request w).1 ≡ count w
  pub count-set_body :
      (r : HttpReq) (q : ClientRequest J) (w : W) → count (lib.set_body r q w).1 ≡ count w
  pub count-decode_body : (r : HttpRes) (w : W) → count (lib.decode_body r w).1 ≡ count w
  pub count-client : (ctx : Ctx) (r : HttpReq) (w : W) → count (c.client ctx r w).1 ≡ count w
  pub count-enc : (ctx : Ctx) (r : Req) (w : W) → count (c.enc ctx r w).1 ≡ count w
  pub count-dec : (ctx : Ctx) (r : Response F) (w : W) → count (c.dec ctx r w).1 ≡ count w
  pub count-request_id : (w : W) → count (c.request_id w).1 ≡ count w
  pub count-before :
      (ctx : Ctx) (r : HttpReq) (w : W) → count (run_before c.before ctx r w).1 ≡ count w
  pub count-after :
      (ctx : Ctx) (r : HttpRes) (w : W) → count (run_before c.after ctx r w).1 ≡ count w
  pub count-finalizer :
      (f : Ctx → Option Failure → Act W (Unit {0}))
      → c.finalizer ≡ some f
      → (ctx : Ctx) (err : Option Failure) (w : W) → count (f ctx err w).1 ≡ count w

Got-cases :
    {A : Type 0} (r : Got A) → ((a : A) × (r ≡ got a)) ⊎ ((err : Failure) × (r ≡ failed err))
Got-cases (got a) = inl (a, refl)
Got-cases (failed err) = inr (err, refl)

-- What the closing of the body of a response adds, if there is a response and it is not buffered.
abbrev pub closed : {HttpRes : Type 0} → Bool → ℕ → Option HttpRes → ℕ
closed buffered closes none = 0
closed buffered closes (some resp) = if buffered then 0 else closes

module _ {W Ctx Req Res HttpReq HttpRes F J : Type 0} (zero_value : Res)
    (lib : Library W Ctx HttpReq HttpRes F J) (c : Client W Ctx Req Res HttpReq HttpRes F J)
    (cancels closes : ℕ) (k : Counts lib c cancels closes) where
  count-close :
      (resp : HttpRes) (w : W)
      → k.count (close lib c resp w) ≡ (if c.buffered_stream then 0 else closes) + k.count w
  unfolding close
  count-close resp w = ground (arith, k.count-close_body resp w)

  count-receive :
      (ctx : Ctx) (resp : HttpRes) (w : W)
      → (let (ended, w') = receive zero_value lib c ctx resp w in
          k.count w' ≡ closed c.buffered_stream closes ended.resp + k.count w)
  unfolding receive
  count-receive ctx resp w =
      let (ctx₁, w₁) = run_before c.after ctx resp w in
      let (body, w₂) = lib.decode_body resp w₁ in
      let decoded : k.count w₂ ≡ k.count w =
        k.count-decode_body resp w₁ ∙ k.count-after ctx resp w in
      elim (Option-cases body.err) [
        | inr (err, p) ↦ ground (arith, p, decoded, count-close resp w₂)
        | inl p ↦
            let w₃ = (c.dec ctx₁ body.value w₂).1 in
            ground (arith, p, decoded, k.count-dec ctx₁ body.value w₂, count-close resp w₃)
      ]

  count-send :
      (ctx : Ctx) (req : HttpReq) (q : ClientRequest J) (w : W)
      → (let (ended, w') = send zero_value lib c ctx req q w in
          k.count w' ≡ closed c.buffered_stream closes ended.resp + k.count w)
  unfolding send
  count-send ctx req q w =
      let (encoded, w₁) = lib.set_body req q w in
      let (ctx₁, w₂) = run_before c.before ctx req w₁ in
      let (sent, w₃) = c.client ctx₁ req w₂ in
      let all : k.count w₃ ≡ k.count w =
        k.count-client ctx₁ req w₂ ∙ k.count-before ctx req w₁ ∙ k.count-set_body req q w in
      elim (Option-cases encoded) [
        | inr (err, p) ↦ ground (arith, p, k.count-set_body req q w)
        | inl p ↦ elim (Got-cases sent) [
          | inr (err, e) ↦ ground (arith, p, e, all)
          | inl (resp, e) ↦ ground (arith, p, e, all, count-receive ctx₁ resp w₃)
        ]
      ]

  count-call :
      (ctx : Ctx) (request : Req) (w : W)
      → (let (ended, w') = call zero_value lib c ctx request w in
          k.count w' ≡ closed c.buffered_stream closes ended.resp + k.count w)
  unfolding call
  count-call ctx request w =
      let ctx₀ = lib.with_method c.method ctx in
      let (params, w₁) = c.enc ctx₀ request w in
      let (id, w₂) = c.request_id w₁ in
      let (made, w₃) = lib.new_request w₂ in
      let all : k.count w₃ ≡ k.count w =
        k.count-new_request w₂ ∙ k.count-request_id w₁ ∙ k.count-enc ctx₀ request w in
      elim (Option-cases params.err) [
        | inr (err, p) ↦ ground (arith, p, k.count-enc ctx₀ request w)
        | inl p ↦ elim (Got-cases made) [
          | inr (err, e) ↦ ground (arith, p, e, all)
          | inl (req, e) ↦
              let q : ClientRequest J = record {
                jsonrpc = version;
                method = c.method;
                params = params.value;
                id = id;
              } in
              ground (arith, p, e, all, count-send ctx₀ req q w₃)
        ]
      ]

  count-finalize :
      (ended : Ended Ctx Res HttpRes) (w : W) → k.count (finalize lib c ended w) ≡ k.count w
  unfolding finalize
  count-finalize ended w = elim (Option-cases c.finalizer) [
    | inl p ↦ rw (p) refl
    | inr (f, p) ↦ rw (p) (k.count-finalizer f p _ ended.err w)
  ]

  -- Every call of the endpoint cancels its context exactly once, also where the stream is to be
  -- buffered, and closes the body exactly once if there was a response that is not to be buffered.
  pub client_endpoint_closes :
      (ctx : Ctx) (request : Req) (w : W)
      → k.count (client_endpoint zero_value lib c ctx request w).1
        ≡ cancels
          + (closed c.buffered_stream closes (call zero_value lib c ctx request w).0.resp
              + k.count w)
  unfolding client_endpoint
  client_endpoint_closes ctx request w =
      let (ended, w') = call zero_value lib c ctx request w in
      rw
        (
          k.count-cancel (finalize lib c ended w'),
          count-finalize ended w',
          count-call ctx request w,
        )
        refl
