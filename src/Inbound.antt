-- ===== src/Inbound.antt =====
-- InboundEmailService.handleReceivedEmail of apps/api/src/email/inbound-email.service.ts: a reply of a
-- customer, received by email, becomes a message of its ticket.
pub mod Recorded
pub mod Replay
pub mod Reopening
pub mod Stored
pub mod Routing
use opsdesk.Base.{
  if◌then◌else◌, ◌==◌, ◌!=◌, find_first, count, any, pure, throw, gets, transaction, modify, reject,
  or_else, Result, unique_violation, unexpected, ok, err, ℕ, String, Bool, ◌&&◌, Option, none, some,
  List, [], ◌∷◌, ◌>>=◌, ◌>>◌, string_eq, nat_eq, option_eq,
}
use Prim.Native.String
use opsdesk.Enums.{
  TicketStatus, MessageKind, AuthorType, MessageSource, WebhookEventStatus, ticket_status_eq,
}
use opsdesk.Schema
use opsdesk.Schema.{
  Customer, Ticket, TicketMessage, WebhookEvent, MetadataValue, AuditAction, AuditEntityType,
}
use opsdesk.State.{State, Action, Published}
use opsdesk.Audit.{record_audit}
use opsdesk.Tickets.Queries.{in_org, publish, touch_tickets}

-- The text functions of the service: extractTicketIdFromRecipients, normalizeEmailAddress,
-- `trim().toLowerCase()` and extractBody.
pub record TextFunctions : Type 0 where
  pub ticket_id_of : List String → Option ℕ
  pub normalize : String → String
  pub trim_lower : String → String
  pub body_of : Option String → Option String → String

-- what the provider returns for an email
pub record ReceivedEmail : Type 0 where
  pub from : Option String
  pub to : Option (List String)
  pub text : Option String
  pub html : Option String

-- the answer of `resend.emails.receiving.get`; the error has a name
pub record ProviderAnswer : Type 0 where
  pub email : Option ReceivedEmail
  pub error : Option String

-- `getReceivedEmail` of inbound-email-provider.service.ts
unfoldable pub get_received_email : ProviderAnswer → Result ReceivedEmail
get_received_email answer = elim answer.error [
  | some name ↦ err (unexpected (String.◌++◌ "Failed to retrieve inbound email: " name))
  | none ↦ elim answer.email [
    | none ↦ err (unexpected "Resend returned no inbound email")
    | some received ↦ ok received
  ]
]

-- awaiting a call that changes nothing and may throw
abbrev pub awaited : {A : Type 0} → Result A → Action A
awaited r w = (r, w)

-- An error of the database that is no unique violation, if the writes of the call meet one.
abbrev pub DatabaseError : Type 0
DatabaseError = Option String

abbrev pub fail_with : DatabaseError → Action Unit
fail_with none = pure tt
fail_with (some message) = throw (unexpected message)

pub record ReceivedEvent : Type 0 where
  pub from : String
  pub to : List String

pub record WebhookIdentity : Type 0 where
  pub webhook_message_id : String
  pub provider_entity_id : String

pub data InboundResult : Type 0 where
  duplicate : InboundResult
  ignored : String → InboundResult
  created : ℕ → InboundResult

abbrev pub email_received : String
email_received = "email.received"

abbrev pub is_event : WebhookIdentity → WebhookEvent → Bool
is_event identity e =
    (e.event_type == email_received) && (e.provider_entity_id == identity.provider_entity_id)

abbrev pub was_seen : WebhookIdentity → State → Bool
was_seen identity w = any (is_event identity) w.webhook_events

abbrev pub new_event : WebhookIdentity → WebhookEventStatus → Option String → WebhookEvent
new_event identity status reason = record {
  event_type = email_received;
  provider_entity_id = identity.provider_entity_id;
  webhook_message_id = identity.webhook_message_id;
  status = status;
  reason = reason;
}

abbrev pub add_event : WebhookEvent → Action Unit
add_event e = modify (λ w. record w { webhook_events = e ∷ w.webhook_events })

-- a second row for the event is a unique violation, which the `catch` block answers; it throws every
-- other error again
unfoldable pub record_ignored_event :
    WebhookIdentity → DatabaseError → String → Action InboundResult
record_ignored_event identity fails reason = do
  fail_with fails
  seen ← gets (was_seen identity)
  if seen then pure duplicate else do
    add_event (new_event identity WebhookEventStatus.ignored (some reason))
    pure (ignored reason)

abbrev pub recipients_of : Option (List String) → List String → List String
recipients_of none fallback = fallback
recipients_of (some []) fallback = fallback
recipients_of (some (r ∷ rs)) fallback = r ∷ rs

abbrev pub customer_message : Ticket → String → ℕ → ℕ → TicketMessage
customer_message t body id now = record {
  id = id;
  organization_id = t.organization_id;
  ticket_id = t.id;
  author_membership_id = none;
  kind = MessageKind.public_reply;
  author_type = AuthorType.customer;
  source = MessageSource.email;
  body = body;
  created_at = now;
}

-- an audit row without an actor
unfoldable pub record_for_system :
    (org : ℕ)
    → AuditAction
    → AuditEntityType
    → (id : ℕ) → List (String × MetadataValue)
    → (now : ℕ) → Action Unit
unfolding record_audit
record_for_system org action entity id metadata now =
    record_audit
      (record {
        organization_id = org;
        actor_user_id = none;
        actor_membership_id = none;
        actor_role = none;
        action = action;
        entity_type = entity;
        entity_id = some id;
        metadata = metadata;
      })
      now

abbrev pub needs_attention : ℕ → ℕ → Ticket → Bool
needs_attention org id t =
    in_org org id t
    && any (λ s. s == t.status)
        (TicketStatus.pending ∷ TicketStatus.resolved ∷ TicketStatus.closed ∷ [])

abbrev pub reopened_at : ℕ → Ticket → Ticket
reopened_at now t = record t {
  status = TicketStatus.opened;
  resolved_at = none;
  closed_at = none;
  updated_at = now;
}

-- the transaction; it returns whether the ticket was reopened. An error of the database rolls back
-- all of it, wherever it occurs.
unfoldable pub write_reply : WebhookIdentity → DatabaseError → Ticket → String → ℕ → ℕ → Action Bool
unfolding record_for_system
write_reply identity fails t body id now = transaction (do
  fail_with fails
  seen ← gets (was_seen identity)
  reject seen unique_violation
  add_event (new_event identity WebhookEventStatus.processed none)
  modify (λ w. record w { messages = customer_message t body id now ∷ w.messages })
  record_for_system t.organization_id Schema.ticket_message_created Schema.ticket_message id
      (("ticketId", Schema.key (some t.id))
        ∷ ("kind", Schema.message_kind MessageKind.public_reply)
        ∷ ("source", Schema.message_source MessageSource.email)
        ∷ ("authorType", Schema.author_type AuthorType.customer)
        ∷ [])
      now
  touch_tickets (in_org t.organization_id t.id) (λ x. record x { updated_at = now })
  reopened ← gets (λ w. count (needs_attention t.organization_id t.id) w.tickets)
  touch_tickets (needs_attention t.organization_id t.id) (reopened_at now)
  if reopened == 1
      then record_for_system t.organization_id Schema.ticket_status_changed Schema.ticket t.id
          (("to", Schema.ticket_status TicketStatus.opened)
            ∷ ("reason", Schema.text "CUSTOMER_REPLY")
            ∷ [])
          now
      else pure tt
  pure (reopened == 1))

unfoldable pub after_reply : Ticket → ℕ → Result Bool → Action InboundResult
after_reply t id (err unique_violation) = pure duplicate
after_reply t id (err e) = throw e
after_reply t id (ok reopened) = do
  publish (Published.message_created t.organization_id t.id id)
  if reopened then publish (Published.ticket_updated t.organization_id t.id) else pure tt
  pure (created id)

unfoldable pub store_reply :
    WebhookIdentity → DatabaseError → Ticket → String → ℕ → ℕ → Action InboundResult
unfolding write_reply after_reply
store_reply identity fails t body id now w =
    let (r, w') = write_reply identity fails t body id now w in after_reply t id r w'

abbrev pub email_of : Option Customer → Option String
email_of none = none
email_of (some c) = c.email

-- `!ticket.customer.email`
abbrev pub reply_address : Ticket → List Customer → Option String
reply_address t customers = elim (email_of (find_first (λ c. c.id == t.customer_id) customers)) [
  | none ↦ none
  | some email ↦ if email == "" then none else some email
]

-- From the ticket on; `others` is what others commit between this read and the transaction.
unfoldable pub handle_for_ticket :
    (text : TextFunctions) (others : State → State) (fails : DatabaseError)
    (identity : WebhookIdentity) (sender body : String) (found : Option Ticket)
    (address : Option String) (id now : ℕ)
    → Action InboundResult
unfolding record_ignored_event store_reply
handle_for_ticket text others fails identity sender body (some t) (some address) id now =
    if text.normalize sender != text.trim_lower address
    then record_ignored_event identity fails "sender-mismatch"
    else if body == ""
    then record_ignored_event identity fails "empty-body"
    else (do modify others; store_reply identity fails t body id now)
handle_for_ticket text others fails identity sender body _ _ id now =
    record_ignored_event identity fails "ticket-not-found"

abbrev pub address_of : Option Ticket → List Customer → Option String
address_of none customers = none
address_of (some t) customers = reply_address t customers

unfoldable pub handle_for_id :
    (text : TextFunctions) (others : State → State) (fails : DatabaseError)
    (identity : WebhookIdentity) (sender body : String) (ticket_id : Option ℕ) (id now : ℕ)
    → Action InboundResult
unfolding handle_for_ticket record_ignored_event
handle_for_id text others fails identity sender body none id now =
    record_ignored_event identity fails "unknown-recipient"
handle_for_id text others fails identity sender body (some ticket_id) id now = do
  found ← gets (λ w. find_first (λ t. t.id == ticket_id) w.tickets)
  address ← gets (λ w. address_of found w.customers)
  handle_for_ticket text others fails identity sender body found address id now

-- `fetching` is what others commit while the provider is asked for the email. Its errors end the
-- call, with nothing recorded.
unfoldable pub handle_received_email :
    (text : TextFunctions) (fetching others : State → State) (fails : DatabaseError)
    (event : ReceivedEvent) (answer : ProviderAnswer) (identity : WebhookIdentity) (id now : ℕ)
    → Action InboundResult
unfolding handle_for_id get_received_email
handle_received_email text fetching others fails event answer identity id now = do
  seen ← gets (was_seen identity)
  if seen then pure duplicate else do
    modify fetching
    received ← awaited (get_received_email answer)
    handle_for_id text others fails identity (or_else received.from event.from)
        (text.body_of received.text received.html)
        (text.ticket_id_of (recipients_of received.to event.to)) id now
