-- ===== src/Tests/Webhooks.antt =====
-- Calls of the webhook.
use opsdesk.Base.{
  if◌then◌else◌, ◌==◌, find_first, count, update_many, bad_request, ok, err, String, ◌≡◌, refl, ◌⊎◌,
  Option, none, some, [], ◌∷◌, string_eq, nat_eq,
}
use opsdesk.Tests.Inbound.{plain, answered, closed_desk}
use opsdesk.Inbound.{
  created, get_received_email, handle_received_email, handle_for_id, handle_for_ticket, store_reply,
  write_reply, after_reply, record_for_system,
}
use opsdesk.Webhooks.{
  WebhookRequest, ResendWebhookHeaders, ResendEvent, Surroundings, HeaderValue, single, absent,
  field, received_inbound, handle_webhook, authenticate, dispatch, require_header,
  handle_received_type, handle_inbound,
}
use opsdesk.Webhooks.Authenticity.{Signed, handle_webhook_verified}
use opsdesk.Webhooks.Redelivery.{redelivered_unchanged, alone}
use opsdesk.Deliveries.Events.{Tags}

abbrev reply_event : ResendEvent
reply_event = record {
  type = "email.received";
  payload = some (record {
    email_id = field "in_1";
    from = field "kim@example.com";
    to = field ("ticket-1@example.com" ∷ []);
    tags = Tags.no_object;
  });
}

-- the client accepts one signature
abbrev verify : String → ResendWebhookHeaders → Option ResendEvent
verify body h = if h.signature == "v1,ok" then some reply_event else none

abbrev headers : String → HeaderValue
headers name =
    if name == "svix-id"
    then single "wh_1"
    else if name == "svix-timestamp"
    then single "1700000000"
    else if name == "svix-signature"
    then single "v1,ok"
    else absent

abbrev request : WebhookRequest
request = record { raw_body = some "{}"; headers = headers }

abbrev meanwhile : Surroundings
meanwhile = record {
  text = plain;
  email = λ id. answered;
  fetching = λ w. w;
  others = λ w. w;
  fails = none;
  id = 4;
  now = 9;
}

request-Signed : Signed verify request "wh_1" reply_event
request-Signed = ("{}", "1700000000", "v1,ok", refl, refl, refl, refl, refl)

is_created :
    (handle_webhook verify meanwhile request closed_desk).0 ≡ ok (received_inbound (created 4))
unfolding handle_webhook authenticate require_header dispatch handle_received_type handle_inbound
    handle_received_email get_received_email handle_for_id handle_for_ticket store_reply write_reply
    after_reply find_first count update_many record_for_system
is_created = refl

unsigned_refused :
    (handle_webhook verify meanwhile (record request { headers = λ name. single "x" }) closed_desk)
    ≡ (err (bad_request "Invalid webhook signature"), closed_desk)
unfolding handle_webhook authenticate require_header
unsigned_refused = refl

handle_webhook_verified_example :
    ((message : String) × (handle_webhook verify meanwhile request closed_desk
        ≡ (err (bad_request message), closed_desk)))
    ⊎ ((svix_id : String) × (event : ResendEvent) × Signed verify request svix_id event
        × (handle_webhook verify meanwhile request closed_desk
            ≡ dispatch meanwhile svix_id event closed_desk))
handle_webhook_verified_example = handle_webhook_verified verify meanwhile request closed_desk

redelivered_unchanged_example :
    let w' = (handle_webhook verify meanwhile request closed_desk).1 in
    (handle_webhook verify (alone meanwhile) request w').1 ≡ w'
redelivered_unchanged_example =
    redelivered_unchanged verify meanwhile meanwhile request request "wh_1" reply_event closed_desk
      (received_inbound (created 4)) request-Signed request-Signed is_created tt
