-- ===== src/Tests/Tickets.antt =====
-- Status changes of tickets.
use opsdesk.Base.{
  length, find_first, find_many, count, update_many, Failure, conflict, ok, err, codes, ℕ, ◌≡◌,
  refl, ◌⊎◌, true, none, some, [], ◌∷◌, arith,
}
use opsdesk.Enums.{TicketStatus, TicketPriority, TicketSource, ticket_status_eq}
use opsdesk.Schema.{Ticket}
use opsdesk.State.{State}
use opsdesk.Tests.Sample.{as_tenant, cat, workspace}
use opsdesk.Tickets.{update_status, is_status_transition_allowed}
use opsdesk.Tickets.Transitions.{StatusChanged, update_status_outcome}
use opsdesk.Tickets.Queries.{in_org, require_ticket}
use opsdesk.Enums.{MessageKind, AttachmentStatus}
use opsdesk.Schema.{Attachment}
use opsdesk.Tickets.Messages.{
  CreateMessageInput, create_message, new_message, unique, check_attachments, total_bytes,
  write_message, link_attachments, record_message, open_delivery, announce_delivery,
}
use opsdesk.Tickets.Messages.Outcome.{create_message_outcome, MessageCreated}
use opsdesk.Tickets.Lifecycle.{Stamps}
use opsdesk.Tickets.Service.{to_change_status, serve, serve-Stamps}
use opsdesk.Tickets.Isolation.{is_foreign}
use opsdesk.Tickets.Tenants.{serve_isolated}

abbrev pub ticket_of : ℕ → ℕ → TicketStatus → Ticket
ticket_of id org status = record {
  id = id;
  organization_id = org;
  customer_id = 1;
  assignee_membership_id = none;
  subject = "Printer";
  description = none;
  status = status;
  priority = TicketPriority.normal;
  source = TicketSource.manual;
  resolved_at = none;
  closed_at = none;
  created_at = 0;
  updated_at = 0;
}

abbrev pub desk : State
desk = record workspace {
  tickets = ticket_of 2 1 TicketStatus.pending ∷ ticket_of 1 1 TicketStatus.opened ∷ [];
}

-- another request creates a ticket meanwhile
abbrev third_ticket : State → State
third_ticket w = record w { tickets = ticket_of 3 1 TicketStatus.opened ∷ w.tickets }

at_1 : find_first (in_org 1 1) desk.tickets ≡ some (ticket_of 1 1 TicketStatus.opened)
unfolding find_first
at_1 = refl

update_status_outcome_example :
    ((e : Failure) × ((update_status third_ticket (as_tenant cat) 1 TicketStatus.resolved 7 desk
          ≡ (err e, desk))
        ⊎ (update_status third_ticket (as_tenant cat) 1 TicketStatus.resolved 7 desk
            ≡ (err e, third_ticket desk))))
    ⊎ ((read current : Ticket) × StatusChanged third_ticket
          (as_tenant cat)
          1
          TicketStatus.resolved
          7
          desk
          read
          current)
update_status_outcome_example =
    update_status_outcome third_ticket (as_tenant cat) 1 TicketStatus.resolved 7 desk (omega arith)

-- a pending ticket does not close
not_closed :
    (update_status (λ s. s) (as_tenant cat) 2 TicketStatus.closed 7 desk).0
    ≡ err (conflict "Cannot transition ticket from PENDING to CLOSED")
unfolding update_status find_first is_status_transition_allowed require_ticket
not_closed = refl

abbrev pub file_of : ℕ → ℕ → Attachment
file_of id bytes = record {
  id = id;
  organization_id = 1;
  ticket_id = 1;
  message_id = none;
  created_by_membership_id = some 13;
  object_key = record { key_organization_id = 1; key_ticket_id = 1; key_attachment_id = id };
  original_name = codes "a.png";
  content_type = codes "image/png";
  size_bytes = bytes;
  status = AttachmentStatus.uploaded;
  etag = none;
  uploaded_at = some 0;
  created_at = 0;
}

abbrev pub reply : CreateMessageInput
reply = record {
  kind = MessageKind.public_reply;
  body = "Done";
  attachment_ids = some (1 ∷ 2 ∷ []);
}

abbrev pub with_files : State
with_files = record desk { attachments = file_of 1 10 ∷ file_of 2 20 ∷ file_of 3 30 ∷ [] }

create_message_outcome_example :
    ((e : Failure) × ((create_message
            (λ s. s)
            third_ticket
            (λ _. true)
            (as_tenant cat)
            1
            reply
            5
            6
            7
            with_files
          ≡ (err e, with_files))
        ⊎ (create_message (λ s. s) third_ticket (λ _. true) (as_tenant cat) 1 reply 5 6 7 with_files
            ≡ (err e, third_ticket with_files))))
    ⊎ ((t : Ticket) × MessageCreated
          (λ s. s)
          third_ticket
          (λ _. true)
          (as_tenant cat)
          1
          reply
          5
          6
          7
          with_files
          t)
create_message_outcome_example =
    create_message_outcome (λ s. s) third_ticket (λ _. true) (as_tenant cat) 1 reply 5 6 7
      with_files

replied :
    (create_message (λ s. s) third_ticket (λ _. true) (as_tenant cat) 1 reply 5 6 7 with_files).0
    ≡ ok (new_message (as_tenant cat) 1 reply 5 7)
unfolding create_message unique find_first require_ticket check_attachments find_many total_bytes
    length write_message link_attachments count update_many record_message open_delivery
    announce_delivery
replied = refl

pub replied_alone :
    (create_message (λ s. s) (λ v. v) (λ _. true) (as_tenant cat) 1 reply 5 6 7 with_files).0
    ≡ ok (new_message (as_tenant cat) 1 reply 5 7)
unfolding create_message unique find_first require_ticket check_attachments find_many total_bytes
    write_message link_attachments count update_many record_message open_delivery announce_delivery
replied_alone = refl

third_ticket-Stamps : (v : State) → Stamps v → Stamps (third_ticket v)
third_ticket-Stamps v a = (refl, a)

serve-Stamps_example : Stamps (
    serve
      (λ s. s)
      (λ _. true)
      third_ticket
      (as_tenant cat)
      (to_change_status 1 TicketStatus.resolved 7)
      desk)
serve-Stamps_example =
    serve-Stamps (λ s. s) (λ _. true) third_ticket (as_tenant cat)
      (to_change_status 1 TicketStatus.resolved 7) desk third_ticket-Stamps (refl, (refl, tt))

abbrev two_desks : State
two_desks = record desk { tickets = ticket_of 9 2 TicketStatus.opened ∷ desk.tickets }

serve_isolated_example :
    find_many
      (is_foreign 1)
      (serve
        (λ s. s)
        (λ _. true)
        (λ s. s)
        (as_tenant cat)
        (to_change_status 1 TicketStatus.resolved 7)
        two_desks).tickets
    ≡ find_many (is_foreign 1) two_desks.tickets
serve_isolated_example =
    serve_isolated (as_tenant cat) two_desks (λ s. s) (λ _. true)
      (to_change_status 1 TicketStatus.resolved 7) (omega arith)
