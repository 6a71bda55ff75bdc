-- ===== src/Webhooks/Authenticity.antt =====
-- A request that the provider did not sign changes nothing.
use opsdesk.Base.{
  Option-cases, bad_request, ok, err, String, ◌≡◌, refl, ◌⊎◌, inl, inr, Option, some,
}
use opsdesk.State.{State}
use opsdesk.Webhooks.{
  WebhookRequest, ResendWebhookHeaders, ResendEvent, Surroundings, text_header, require_header,
  authenticate, dispatch, handle_webhook,
}

-- what a request shows that the provider signed
abbrev pub Signed :
    (String → ResendWebhookHeaders → Option ResendEvent)
    → WebhookRequest
    → String
    → ResendEvent
    → Type 0
Signed verify request svix_id event =
    (body : String) × (timestamp : String) × (signature : String) × (request.raw_body ≡ some body)
    × (text_header (request.headers "svix-id") ≡ some svix_id)
    × (text_header (request.headers "svix-timestamp") ≡ some timestamp)
    × (text_header (request.headers "svix-signature") ≡ some signature)
    × (verify body (record { id = svix_id; timestamp = timestamp; signature = signature })
        ≡ some event)

pub authenticate_cases :
    (verify : String → ResendWebhookHeaders → Option ResendEvent) (request : WebhookRequest)
    (w : State)
    → ((message : String) × (authenticate verify request w ≡ (err (bad_request message), w)))
      ⊎ ((svix_id : String) × (event : ResendEvent) × Signed verify request svix_id event
          × (authenticate verify request w ≡ (ok (svix_id, event), w)))
unfolding authenticate require_header
authenticate_cases verify request w = elim (Option-cases request.raw_body) [
  | inl e ↦ inl ("Raw webhook body is missing", rw e refl)
  | inr (body, b) ↦ elim (Option-cases (text_header (request.headers "svix-id"))) [
    | inl e ↦ inl ("Missing svix-id header", rw (b, e) refl)
    | inr (id, i) ↦ elim (Option-cases (text_header (request.headers "svix-timestamp"))) [
      | inl e ↦ inl ("Missing svix-timestamp header", rw (b, i, e) refl)
      | inr (time, t) ↦ elim (Option-cases (text_header (request.headers "svix-signature"))) [
        | inl e ↦ inl ("Missing svix-signature header", rw (b, i, t, e) refl)
        | inr (sign, g) ↦
            elim (Option-cases
              (verify body (record { id = id; timestamp = time; signature = sign }))) [
                | inl e ↦ inl ("Invalid webhook signature", rw (b, i, t, g, e) refl)
                | inr (event, v) ↦
                    inr (id, event, (body, time, sign, b, i, t, g, v), rw (b, i, t, g, v) refl)
              ]
      ]
    ]
  ]
]

pub Signed-authenticate :
    (verify : String → ResendWebhookHeaders → Option ResendEvent) (request : WebhookRequest)
    (svix_id : String) (event : ResendEvent) (w : State)
    → Signed verify request svix_id event
    → authenticate verify request w ≡ (ok (svix_id, event), w)
unfolding authenticate require_header
Signed-authenticate verify request svix_id event w (body, time, sign, b, i, t, g, v) =
    rw (b, i, t, g, v) refl

-- A call of the webhook either fails as a bad request and changes nothing, or the request has a
-- body, the three headers once each, and a signature that the provider's client accepts; then the
-- call does what the verified event asks for.
pub handle_webhook_verified :
    (verify : String → ResendWebhookHeaders → Option ResendEvent) (s : Surroundings)
    (request : WebhookRequest) (w : State)
    → ((message : String) × (handle_webhook verify s request w ≡ (err (bad_request message), w)))
      ⊎ ((svix_id : String) × (event : ResendEvent) × Signed verify request svix_id event
          × (handle_webhook verify s request w ≡ dispatch s svix_id event w))
unfolding handle_webhook
handle_webhook_verified verify s request w = elim (authenticate_cases verify request w) [
  | inl (message, e) ↦ inl (message, rw e refl)
  | inr (svix_id, event, signed, e) ↦ inr (svix_id, event, signed, rw e refl)
]
