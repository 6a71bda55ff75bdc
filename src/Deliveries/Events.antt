-- ===== src/Deliveries/Events.antt =====
-- OutboundEmailEventsService of apps/api/src/email/outbound-email-events.service.ts.
use opsdesk.Base.{
  ◌==◌, find_first, count, any, pure, throw, gets, transaction, modify, reject, Failure, Result,
  unique_violation, unexpected, ok, err, ℕ, String, Bool, true, false, ◌&&◌, ◌||◌, Option, none,
  some, List, [], ◌∷◌, ◌>>=◌, ◌>>◌, nat_eq, option_eq, string_eq,
}
use opsdesk.Enums.{EmailDeliveryStatus, WebhookEventStatus, email_delivery_status_eq}
use opsdesk.Schema.{EmailDelivery, WebhookEvent}
use opsdesk.State.{State, Action}
use opsdesk.Deliveries.{id_taken, publish_delivery, update_deliveries}

pub data OutboundEmailEventType : Type 0 where
  email_sent email_delivered email_delivery_delayed email_bounced : OutboundEmailEventType
  email_complained email_suppressed email_failed : OutboundEmailEventType

abbrev pub event_name : OutboundEmailEventType → String
event_name email_sent = "email.sent"
event_name email_delivered = "email.delivered"
event_name email_delivery_delayed = "email.delivery_delayed"
event_name email_bounced = "email.bounced"
event_name email_complained = "email.complained"
event_name email_suppressed = "email.suppressed"
event_name email_failed = "email.failed"

-- A column that the update leaves alone is `none`.
pub record DeliveryTransition : Type 0 where
  pub allowed_from : List EmailDeliveryStatus
  pub status : EmailDeliveryStatus
  pub sent_at : Option ℕ
  pub delivered_at : Option ℕ
  pub failed_at : Option ℕ

failure_status : EmailDeliveryStatus → ℕ → DeliveryTransition
failure_status status now = record {
  allowed_from =
      EmailDeliveryStatus.pending ∷ EmailDeliveryStatus.sending ∷ EmailDeliveryStatus.sent
      ∷ EmailDeliveryStatus.delayed ∷ [];
  status = status;
  sent_at = none;
  delivered_at = none;
  failed_at = some now;
}

unfoldable pub map_status : OutboundEmailEventType → ℕ → DeliveryTransition
unfolding failure_status
map_status email_sent now = record {
  allowed_from = EmailDeliveryStatus.pending ∷ EmailDeliveryStatus.sending ∷ [];
  status = EmailDeliveryStatus.sent;
  sent_at = some now;
  delivered_at = none;
  failed_at = none;
}
map_status email_delivery_delayed now = record {
  allowed_from =
      EmailDeliveryStatus.pending ∷ EmailDeliveryStatus.sending ∷ EmailDeliveryStatus.sent ∷ [];
  status = EmailDeliveryStatus.delayed;
  sent_at = none;
  delivered_at = none;
  failed_at = none;
}
map_status email_delivered now = record {
  allowed_from =
      EmailDeliveryStatus.pending ∷ EmailDeliveryStatus.sending ∷ EmailDeliveryStatus.sent
      ∷ EmailDeliveryStatus.delayed ∷ [];
  status = EmailDeliveryStatus.delivered;
  sent_at = none;
  delivered_at = some now;
  failed_at = none;
}
map_status email_bounced now = failure_status EmailDeliveryStatus.bounced now
map_status email_complained now = failure_status EmailDeliveryStatus.complained now
map_status email_suppressed now = failure_status EmailDeliveryStatus.suppressed now
map_status email_failed now = failure_status EmailDeliveryStatus.failed now

abbrev pub or_keep : Option ℕ → Option ℕ → Option ℕ
or_keep none old = old
or_keep (some t) old = some t

abbrev pub apply_transition : DeliveryTransition → EmailDelivery → EmailDelivery
apply_transition m d = record d {
  status = m.status;
  sent_at = or_keep m.sent_at d.sent_at;
  delivered_at = or_keep m.delivered_at d.delivered_at;
  failed_at = or_keep m.failed_at d.failed_at;
}

abbrev pub allowed : ℕ → DeliveryTransition → EmailDelivery → Bool
allowed id m d = (d.id == id) && any (λ s. s == d.status) m.allowed_from

-- A text under the tag that is not empty: the id of a row, whether a delivery has it or not, or a text
-- that is no id.
pub data TagText : Type 0 where
  uuid : ℕ → TagText
  no_uuid : TagText

-- The `tags` of the event, as far as the code looks: no object, an object without the tag, with an
-- empty text or no text under it, or with a text that is not empty.
pub data Tags : Type 0 where
  no_object no_tag empty_tag other_tag malformed_tag : Tags
  delivery_tag : ℕ → Tags

-- An empty text is falsy where the id is used, so it counts as no id.
unfoldable pub extract_delivery_id : Tags → Option TagText
extract_delivery_id (delivery_tag id) = some (uuid id)
extract_delivery_id malformed_tag = some no_uuid
extract_delivery_id _ = none

pub data HandleResult : Type 0 where
  ignored processed duplicate : HandleResult

-- the delivery of the event; a query with a text that is no UUID throws
unfoldable pub find_delivery : Option TagText → String → Action (Option EmailDelivery)
find_delivery (some (uuid id)) email_id = gets (λ w. find_first (λ d. d.id == id) w.deliveries)
find_delivery (some no_uuid) email_id = throw (unexpected "P2023")
find_delivery none email_id =
    gets (λ w. find_first (λ d. d.provider_message_id == some email_id) w.deliveries)

-- the key of a webhook event, unique in its table
abbrev pub same_event : String → String → WebhookEvent → Bool
same_event type entity e = (e.event_type == type) && (e.provider_entity_id == entity)

abbrev pub may_take_id : ℕ → String → EmailDelivery → Bool
may_take_id id email_id d =
    (d.id == id) && (d.provider_message_id == none || d.provider_message_id == some email_id)

-- the transaction; it returns whether the status changed, and throws P2002 where a unique column
-- would hold a value twice
unfoldable pub apply_event :
    EmailDelivery → OutboundEmailEventType → String → String → ℕ → Action Bool
apply_event d type email_id webhook_message_id now = transaction (do
  seen ← gets (λ w. any (same_event (event_name type) email_id) w.webhook_events)
  reject seen unique_violation
  modify (λ w. record w {
    webhook_events =
        record {
          event_type = event_name type;
          provider_entity_id = email_id;
          webhook_message_id = webhook_message_id;
          status = WebhookEventStatus.processed;
          reason = none;
        }
        ∷ w.webhook_events;
  })
  clash ←
      gets
        (λ w. id_taken d.id email_id w.deliveries && any (may_take_id d.id email_id) w.deliveries)
  reject clash unique_violation
  update_deliveries (may_take_id d.id email_id)
      (λ x. record x { provider_message_id = some email_id })
  changed ← gets (λ w. count (allowed d.id (map_status type now)) w.deliveries)
  update_deliveries (allowed d.id (map_status type now)) (apply_transition (map_status type now))
  pure (changed == 1))

-- the `catch` block
abbrev pub on_unique_violation : Failure → Action HandleResult
on_unique_violation unique_violation = pure duplicate
on_unique_violation e = throw e

abbrev pub publish_change : Bool → EmailDelivery → EmailDeliveryStatus → Action HandleResult
publish_change true d status = do publish_delivery d status; pure processed
publish_change false d status = pure processed

abbrev pub after_transaction :
    EmailDelivery → EmailDeliveryStatus → Result Bool → Action HandleResult
after_transaction d status (ok changed) = publish_change changed d status
after_transaction d status (err e) = on_unique_violation e

abbrev pub try_event :
    EmailDelivery → OutboundEmailEventType → String → String → ℕ → Action HandleResult
try_event d type email_id webhook_message_id now s =
    let (r, s') = apply_event d type email_id webhook_message_id now s in
    after_transaction d (map_status type now).status r s'

abbrev pub handle_found :
    (State → State)
    → Option EmailDelivery
    → OutboundEmailEventType
    → String
    → String
    → ℕ
    → Action HandleResult
handle_found others none type email_id webhook_message_id now = pure ignored
handle_found others (some d) type email_id webhook_message_id now = do
  modify others
  try_event d type email_id webhook_message_id now

unfoldable pub handle :
    (State → State)
    → OutboundEmailEventType
    → (email_id : String) → Tags
    → (webhook_message_id : String) → ℕ
    → Action HandleResult
handle others type email_id tags webhook_message_id now = do
  delivery ← find_delivery (extract_delivery_id tags) email_id
  handle_found others delivery type email_id webhook_message_id now
