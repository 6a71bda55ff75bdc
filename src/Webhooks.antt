-- ===== src/Webhooks.antt =====
-- The webhook of the email provider: apps/api/src/email/resend-webhook.controller.ts and
-- resend-webhook-verification.service.ts. `verify` stands for `webhooks.verify` of the provider's
-- client with the secret, `none` where it throws.
pub mod Authenticity
pub mod Redelivery
use opsdesk.Base.{
  if◌then◌else◌, ◌==◌, pure, throw, or_throw, bad_request, ℕ, String, Option, none, some, List,
  ◌>>=◌, ◌>>◌, string_eq, nat_eq,
}
use opsdesk.State.{State, Action}
use opsdesk.Inbound.{
  TextFunctions, ProviderAnswer, DatabaseError, InboundResult, email_received,
  handle_received_email,
}
use opsdesk.Deliveries.Events.{OutboundEmailEventType, event_name, Tags, HandleResult}
use opsdesk.Deliveries.Events

-- a header that came once, that came several times, or that did not come
pub data HeaderValue : Type 0 where
  absent repeated : HeaderValue
  single : String → HeaderValue

pub record WebhookRequest : Type 0 where
  pub raw_body : Option String
  pub headers : String → HeaderValue

pub record ResendWebhookHeaders : Type 0 where
  pub id : String
  pub timestamp : String
  pub signature : String

-- what stands under a key where a text is expected, or an array
pub data Field (A : Type 0) : Type 0 where
  no_field other_type : Field A
  field : A → Field A

-- the `data` of an event that is an object
pub record EventData : Type 0 where
  pub email_id : Field String
  pub from : Field String
  pub to : Field (List String)
  pub tags : Tags

-- a verified event
pub record ResendEvent : Type 0 where
  pub type : String
  pub payload : Option EventData

pub data WebhookResponse : Type 0 where
  received : WebhookResponse
  received_inbound : InboundResult → WebhookResponse
  received_outbound : HandleResult → WebhookResponse

-- What a call for a received email meets: the provider's answer, what others commit meanwhile, an
-- error of the database; for every call, what others commit, the id of a new message and the time.
pub record Surroundings : Type 0 where
  pub text : TextFunctions
  pub email : String → ProviderAnswer
  pub fetching : State → State
  pub others : State → State
  pub fails : DatabaseError
  pub id : ℕ
  pub now : ℕ

abbrev pub text_header : HeaderValue → Option String
text_header (single value) = some value
text_header _ = none

unfoldable pub require_header : WebhookRequest → String → String → Action String
require_header request name message =
    or_throw (text_header (request.headers name)) (bad_request message)

-- the event, and the id of the message that carries it
unfoldable pub authenticate :
    (String → ResendWebhookHeaders → Option ResendEvent)
    → WebhookRequest
    → Action (String × ResendEvent)
unfolding require_header
authenticate verify request = do
  raw_body ← or_throw request.raw_body (bad_request "Raw webhook body is missing")
  svix_id ← require_header request "svix-id" "Missing svix-id header"
  timestamp ← require_header request "svix-timestamp" "Missing svix-timestamp header"
  signature ← require_header request "svix-signature" "Missing svix-signature header"
  event ←
      or_throw
        (verify raw_body (record { id = svix_id; timestamp = timestamp; signature = signature }))
        (bad_request "Invalid webhook signature")
  pure (svix_id, event)

-- `outboundTypes`
unfoldable pub outbound_type : String → Option OutboundEmailEventType
outbound_type type =
    if type == event_name Events.email_sent
    then some Events.email_sent
    else if type == event_name Events.email_delivered
    then some Events.email_delivered
    else if type == event_name Events.email_delivery_delayed
    then some Events.email_delivery_delayed
    else if type == event_name Events.email_bounced
    then some Events.email_bounced
    else if type == event_name Events.email_complained
    then some Events.email_complained
    else if type == event_name Events.email_suppressed
    then some Events.email_suppressed
    else if type == event_name Events.email_failed
    then some Events.email_failed
    else none

unfoldable pub handle_inbound :
    Surroundings
    → (svix_id : String) (email_id from : Field String) (to : Field (List String))
    → Action WebhookResponse
handle_inbound s svix_id (field email_id) (field from) (field to) = do
  result ←
      handle_received_email s.text s.fetching s.others s.fails (record { from = from; to = to })
        (s.email email_id) (record { webhook_message_id = svix_id; provider_entity_id = email_id })
        s.id s.now
  pure (received_inbound result)
handle_inbound s svix_id _ _ _ = throw (bad_request "Invalid email.received event")

unfoldable pub handle_outbound :
    Surroundings
    → OutboundEmailEventType
    → (svix_id : String) (email_id : Field String) (tags : Tags) → Action WebhookResponse
handle_outbound s type svix_id (field email_id) tags = do
  result ← Events.handle s.others type email_id tags svix_id s.now
  pure (received_outbound result)
handle_outbound s type svix_id _ tags = throw (bad_request "Invalid outbound email event")

unfoldable pub handle_received_type :
    Surroundings → String → Option EventData → Action WebhookResponse
unfolding handle_inbound
handle_received_type s svix_id (some d) = handle_inbound s svix_id d.email_id d.from d.to
handle_received_type s svix_id none = throw (bad_request "Invalid email.received event")

unfoldable pub handle_outbound_type :
    Surroundings
    → Option OutboundEmailEventType
    → String
    → Option EventData
    → Action WebhookResponse
unfolding handle_outbound
handle_outbound_type s none svix_id payload = pure received
handle_outbound_type s (some type) svix_id (some d) =
    handle_outbound s type svix_id d.email_id d.tags
handle_outbound_type s (some type) svix_id none = throw (bad_request "Invalid outbound email event")

-- what follows the verification
unfoldable pub dispatch : Surroundings → String → ResendEvent → Action WebhookResponse
unfolding handle_received_type handle_outbound_type
dispatch s svix_id event =
    if event.type == email_received
    then handle_received_type s svix_id event.payload
    else handle_outbound_type s (outbound_type event.type) svix_id event.payload

unfoldable pub handle_webhook :
    (String → ResendWebhookHeaders → Option ResendEvent)
    → Surroundings
    → WebhookRequest
    → Action WebhookResponse
unfolding authenticate dispatch
handle_webhook verify s request = do
  verified ← authenticate verify request
  dispatch s verified.0 verified.1
