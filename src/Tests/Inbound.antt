-- ===== src/Tests/Inbound.antt =====
-- Received emails.
use opsdesk.Base.{
  find_first, count, update_many, or_else, ◌⊎◌, Failure, ok, err, unexpected, ◌≡◌, refl, none, some,
  [], ◌∷◌,
}
use opsdesk.Enums.{TicketStatus, TicketPriority, TicketSource}
use opsdesk.Schema.{Customer, Ticket}
use opsdesk.State.{State}
use opsdesk.Tests.Sample.{workspace}
use opsdesk.Tickets.Lifecycle.{Stamps}
use opsdesk.Inbound.{
  InboundResult, TextFunctions, ProviderAnswer, get_received_email, ReceivedEmail, ReceivedEvent,
  WebhookIdentity, created, duplicate, handle_received_email, handle_for_id, handle_for_ticket,
  store_reply, write_reply, after_reply, record_for_system,
}
use opsdesk.Inbound.Replay.{handle_received_once}
use opsdesk.Inbound.Reopening.{handle_received_email-Stamps}
use opsdesk.Inbound.Stored.{stored_opens, by_id}

-- every email is for ticket 1
abbrev pub plain : TextFunctions
plain = record {
  ticket_id_of = λ recipients. some 1;
  normalize = λ s. s;
  trim_lower = λ s. s;
  body_of = λ text html. or_else text "";
}

abbrev pub kim : Customer
kim = record {
  id = 1;
  organization_id = 1;
  name = "Kim";
  email = some "kim@example.com";
  phone = none;
  company = none;
  notes = none;
  archived_at = none;
  created_at = 0;
  updated_at = 0;
}

abbrev closed_ticket : Ticket
closed_ticket = record {
  id = 1;
  organization_id = 1;
  customer_id = 1;
  assignee_membership_id = none;
  subject = "Printer";
  description = none;
  status = TicketStatus.closed;
  priority = TicketPriority.normal;
  source = TicketSource.manual;
  resolved_at = some 2;
  closed_at = some 3;
  created_at = 0;
  updated_at = 3;
}

abbrev pub closed_desk : State
closed_desk = record workspace { customers = kim ∷ []; tickets = closed_ticket ∷ [] }

abbrev pub email : ReceivedEmail
email = record {
  from = some "kim@example.com";
  to = none;
  text = some "It broke again";
  html = none;
}

abbrev pub answered : ProviderAnswer
answered = record { email = some email; error = none }

abbrev received_event : ReceivedEvent
received_event = record { from = "kim@example.com"; to = "ticket-1@example.com" ∷ [] }

abbrev first_webhook : WebhookIdentity
first_webhook = record { webhook_message_id = "wh_1"; provider_entity_id = "in_1" }

is_stored :
    (handle_received_email plain
      (λ s. s)
      (λ s. s)
      none
      received_event
      answered
      first_webhook
      4
      9
      closed_desk).0
    ≡ ok (created 4)
unfolding handle_received_email get_received_email handle_for_id handle_for_ticket store_reply
    write_reply after_reply find_first count update_many record_for_system
is_stored = refl

stored_opens_example :
    (t' : Ticket) × (find_first
        (by_id 1)
        (handle_received_email plain
          (λ s. s)
          (λ s. s)
          none
          received_event
          answered
          first_webhook
          4
          9
          closed_desk).1.tickets
      ≡ some t')
    × (t'.status ≡ TicketStatus.opened)
unfolding get_received_email
stored_opens_example =
    stored_opens plain none received_event answered email first_webhook 4 9 4 1 closed_desk refl
      refl is_stored

handle_received_once_example :
    let call =
      handle_received_email plain
        (λ s. s)
        (λ s. s)
        none
        received_event
        answered
        first_webhook
        4
        9
        closed_desk in
    ((e : Failure) × ((call ≡ (err e, closed_desk)) ⊎ (call ≡ (err e, closed_desk))))
    ⊎ ((r : InboundResult) × (call.0 ≡ ok r)
        × (handle_received_email plain
              (λ s. s)
              (λ s. s)
              (some "database unavailable")
              received_event
              answered
              first_webhook
              5
              10
              call.1
            ≡ (ok duplicate, call.1)))
handle_received_once_example =
    handle_received_once first_webhook plain plain (λ s. s) (λ s. s) (λ s. s) (λ s. s) none
      (some "database unavailable") received_event received_event answered answered 4 5 9 10
      closed_desk

-- an error of the provider ends the call with nothing recorded
not_fetched :
    handle_received_email plain
      (λ s. s)
      (λ s. s)
      none
      received_event
      (record { email = none; error = some "rate_limit_exceeded" })
      first_webhook
      4
      9
      closed_desk
    ≡ (err (unexpected "Failed to retrieve inbound email: rate_limit_exceeded"), closed_desk)
unfolding handle_received_email get_received_email
not_fetched = refl

-- an error of the database rolls the transaction back
not_written :
    handle_received_email plain
      (λ s. s)
      (λ s. s)
      (some "database unavailable")
      received_event
      answered
      first_webhook
      4
      9
      closed_desk
    ≡ (err (unexpected "database unavailable"), closed_desk)
unfolding handle_received_email get_received_email handle_for_id handle_for_ticket store_reply
    write_reply after_reply find_first
not_written = refl

handle_received_email-Stamps_example :
    Stamps
      (handle_received_email plain
        (λ s. s)
        (λ s. s)
        none
        received_event
        answered
        first_webhook
        4
        9
        closed_desk).1
handle_received_email-Stamps_example =
    handle_received_email-Stamps plain (λ s. s) (λ s. s) none (λ w a. a) (λ w a. a) received_event
      answered first_webhook 4 9 closed_desk (refl, tt)
