-- ===== src/Tickets/Messages.antt =====
-- `createMessage` of TicketsService. `trim_lower` stands for `trim().toLowerCase()` on an address,
-- `others` for what other requests commit between the reads and the writes, `accepts` for whether
-- `ensureEmailDeliveryQueued` succeeds.
pub mod Sending
pub mod Cases
pub mod Duplicates
pub mod Outcome
pub mod Rows
pub mod Links
pub mod Limits
use opsdesk.Base.{
  ltb, if◌then◌else◌, ◌==◌, ◌!=◌, length, find_first, find_many, count, update_many, any, pure,
  gets, or_throw, transaction, modify, reject, or_else, is_none, bad_request, not_found, conflict,
  ℕ, ◌+◌, ◌*◌, String, Bool, true, false, ◌&&◌, Option, none, some, List, [], ◌∷◌, ◌>>=◌, ◌>>◌,
  string_eq, nat_eq, option_eq,
}
use opsdesk.Enums.{
  TicketStatus, MessageKind, AuthorType, MessageSource, AttachmentStatus, EmailDeliveryStatus,
  ticket_status_eq, message_kind_eq, attachment_status_eq, email_delivery_status_eq,
}
use opsdesk.Schema
use opsdesk.Schema.{Attachment, Customer, EmailDelivery, Ticket, TicketMessage}
use opsdesk.State.{TenantContext, State, Action, Published}
use opsdesk.Audit.{record_for_tenant}
use opsdesk.Tickets.Queries.{in_org, publish, require_ticket, touch_tickets}

pub record CreateMessageInput : Type 0 where
  pub kind : MessageKind
  pub body : String
  pub attachment_ids : Option (List ℕ)

abbrev pub includes : List ℕ → ℕ → Bool
includes ids id = any (λ x. x == id) ids

-- the values of `new Set(ids)`, after those already seen
pub unique_from : List ℕ → List ℕ → List ℕ
unique_from seen [] = []
unique_from seen (x ∷ xs) = elim (includes seen x) [
  | true ↦ unique_from seen xs
  | false ↦ x ∷ unique_from (x ∷ seen) xs
]

unfoldable pub unique : List ℕ → List ℕ
unfolding unique_from
unique ids = unique_from [] ids

abbrev pub max_message_attachments_bytes : ℕ
max_message_attachments_bytes = 50 * 1024 * 1024

-- an attachment that a message may take
abbrev pub available : ℕ → ℕ → List ℕ → Attachment → Bool
available org ticket_id ids a =
    includes ids a.id
    && (a.organization_id == org)
    && (a.ticket_id == ticket_id)
    && (a.status == AttachmentStatus.uploaded)
    && (a.message_id == none)

unfoldable pub total_bytes : List Attachment → ℕ
total_bytes [] = 0
total_bytes (a ∷ rest) = a.size_bytes + total_bytes rest

unfoldable pub check_attachments : ℕ → ℕ → List ℕ → Action Unit
unfolding total_bytes
check_attachments org ticket_id ids =
    if ltb 0 (length ids)
    then (do
      attachments ← gets (λ w. find_many (available org ticket_id ids) w.attachments)
      reject (length attachments != length ids) (conflict "One or more attachments are unavailable")
      reject (ltb max_message_attachments_bytes (total_bytes attachments))
          (bad_request "Attachments exceed the maximum total size for a message"))
    else pure tt

abbrev pub linked_to : ℕ → Attachment → Attachment
linked_to message_id a = record a { message_id = some message_id }

unfoldable pub link_attachments : ℕ → ℕ → List ℕ → ℕ → Action Unit
link_attachments org ticket_id ids message_id =
    if ltb 0 (length ids)
    then (do
      linked ← gets (λ w. count (available org ticket_id ids) w.attachments)
      modify (λ w. record w {
        attachments =
            update_many (available org ticket_id ids) (linked_to message_id) w.attachments;
      })
      reject (linked != length ids) (conflict "One or more attachments were linked concurrently"))
    else pure tt

abbrev pub new_message : TenantContext → ℕ → CreateMessageInput → ℕ → ℕ → TicketMessage
new_message tenant ticket_id input id now = record {
  id = id;
  organization_id = tenant.organization_id;
  ticket_id = ticket_id;
  author_membership_id = some tenant.membership_id;
  kind = input.kind;
  author_type = AuthorType.member;
  source = MessageSource.manual;
  body = input.body;
  created_at = now;
}

-- the address of the ticket's customer
abbrev pub customer_email : Ticket → List Customer → Option String
customer_email t customers = elim (find_first (λ c. c.id == t.customer_id) customers) [
  | none ↦ none
  | some c ↦ c.email
]

-- `email?.trim().toLowerCase() || null`
abbrev pub recipient_of : (String → String) → Option String → Option String
recipient_of trim_lower none = none
recipient_of trim_lower (some email) =
    if trim_lower email == "" then none else some (trim_lower email)

-- a reply without a recipient has failed from the start
abbrev pub new_delivery : ℕ → ℕ → ℕ → Option String → ℕ → ℕ → EmailDelivery
new_delivery org ticket_id message_id recipient id now = record {
  id = id;
  organization_id = org;
  ticket_id = ticket_id;
  message_id = message_id;
  recipient_email = recipient;
  status = if is_none recipient then EmailDeliveryStatus.failed else EmailDeliveryStatus.pending;
  provider_message_id = none;
  attempt_count = 0;
  last_attempt_at = none;
  last_error = if is_none recipient then some "Customer has no email address" else none;
  sent_at = none;
  delivered_at = none;
  failed_at = if is_none recipient then some now else none;
  created_at = now;
}

unfoldable pub open_delivery : EmailDelivery → MessageKind → Action (Option EmailDelivery)
open_delivery delivery MessageKind.internal_note = pure none
open_delivery delivery MessageKind.public_reply = do
  modify (λ w. record w { deliveries = delivery ∷ w.deliveries })
  pure (some delivery)

abbrev pub is_message : ℕ → ℕ → ℕ → TicketMessage → Bool
is_message org ticket_id id m =
    (m.id == id) && (m.organization_id == org) && (m.ticket_id == ticket_id)

unfoldable pub record_message :
    TenantContext → ℕ → CreateMessageInput → List ℕ → ℕ → ℕ → Action Unit
unfolding record_for_tenant
record_message tenant ticket_id input ids id now =
    record_for_tenant tenant Schema.ticket_message_created Schema.ticket_message id
      (("ticketId", Schema.key (some ticket_id))
        ∷ ("kind", Schema.message_kind input.kind)
        ∷ ("source", Schema.message_source MessageSource.manual)
        ∷ ("attachmentCount", Schema.amount (length ids))
        ∷ [])
      now

-- the writes of the transaction
unfoldable pub write_message :
    TenantContext
    → Ticket
    → (input : CreateMessageInput) → (ids : List ℕ) → EmailDelivery
    → (id now : ℕ) → Action (TicketMessage × Option EmailDelivery)
write_message tenant ticket input ids delivery id now = do
  modify (λ w. record w { messages = new_message tenant ticket.id input id now ∷ w.messages })
  touch_tickets (in_org tenant.organization_id ticket.id) (λ t. record t { updated_at = now })
  link_attachments tenant.organization_id ticket.id ids id
  record_message tenant ticket.id input ids id now
  opened ← open_delivery delivery input.kind
  found ← gets (λ w. find_first (is_message tenant.organization_id ticket.id id) w.messages)
  result ← or_throw found (not_found "Message not found")
  pure (result, opened)

-- what follows the transaction: events, and the queue; a failure of the queue is only logged
unfoldable pub announce_delivery :
    (accepts : ℕ → Bool) (org ticket_id message_id : ℕ) → Option EmailDelivery → Action Unit
announce_delivery accepts org ticket_id message_id none = pure tt
announce_delivery accepts org ticket_id message_id (some d) = do
  publish (Published.email_delivery_updated org ticket_id message_id d.id d.status)
  if (d.status == EmailDeliveryStatus.pending) && accepts d.id
      then modify (λ w. record w { queued = d.id ∷ w.queued })
      else pure tt

abbrev pub closed_to : MessageKind → Ticket → Bool
closed_to kind t = (kind == MessageKind.public_reply) && (t.status == TicketStatus.closed)

unfoldable pub create_message :
    (trim_lower : String → String) (others : State → State) (accepts : ℕ → Bool)
    (tenant : TenantContext) (ticket_id : ℕ) (input : CreateMessageInput) (id delivery_id now : ℕ)
    → Action TicketMessage
create_message trim_lower others accepts tenant ticket_id input id delivery_id now = do
  let ids = or_else input.attachment_ids []
  reject (length (unique ids) != length ids)
      (bad_request "Duplicate attachment IDs are not allowed")
  ticket ← require_ticket tenant.organization_id ticket_id
  email ← gets (λ w. customer_email ticket w.customers)
  reject (closed_to input.kind ticket)
      (conflict "Closed tickets must be reopened before sending a public reply")
  check_attachments tenant.organization_id ticket.id (unique ids)
  modify others
  written ← transaction (
      write_message tenant ticket input (unique ids)
        (new_delivery tenant.organization_id ticket.id id (recipient_of trim_lower email)
          delivery_id now)
        id now)
  publish (Published.message_created tenant.organization_id ticket_id written.0.id)
  announce_delivery accepts tenant.organization_id ticket_id written.0.id written.1
  pure written.0
