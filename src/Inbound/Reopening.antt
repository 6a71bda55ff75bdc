-- ===== src/Inbound/Reopening.antt =====
-- A stored reply of a customer opens its ticket, and keeps the time stamps in step with the status.
use opsdesk.Base.{
  modify, Result, unique_violation, ok, err, by_modify, Progress, ℕ, String, Bool, Option, none,
  some, List,
}
use opsdesk.Enums.{ticket_status_eq}
use opsdesk.Schema.{Ticket, MetadataValue, AuditAction, AuditEntityType}
use opsdesk.State.{State}
use opsdesk.Tickets.Lifecycle.{Stamps, KeepsStamps, steps}
use opsdesk.Tickets.Requests.{same_tickets}
use opsdesk.Tickets.Parts.{by_tables}
use opsdesk.Inbound.{
  TextFunctions, DatabaseError, ProviderAnswer, awaited, fail_with, ReceivedEvent, WebhookIdentity,
  record_ignored_event, write_reply, after_reply, store_reply, handle_for_ticket, handle_for_id,
  handle_received_email, record_for_system,
}

record_for_system-Stamps :
    (org : ℕ) (action : AuditAction) (entity : AuditEntityType) (id : ℕ)
    (metadata : List (String × MetadataValue)) (now : ℕ)
    → Progress KeepsStamps (record_for_system org action entity id metadata now)
unfolding record_for_system
record_for_system-Stamps org action entity id metadata now = by_modify _ (λ w a. a)

fail_with-Stamps : (fails : DatabaseError) → Progress KeepsStamps (fail_with fails)
fail_with-Stamps none = search steps
fail_with-Stamps (some message) = search steps

write_reply-Stamps :
    (identity : WebhookIdentity) (fails : DatabaseError) (t : Ticket) (body : String) (id now : ℕ)
    → Progress KeepsStamps (write_reply identity fails t body id now)
unfolding write_reply
write_reply-Stamps identity fails t body id now =
    search (steps, by_tables, same_tickets, record_for_system-Stamps, fail_with-Stamps) depth 28
      fits 40000

after_reply-Stamps :
    (t : Ticket) (id : ℕ) (r : Result Bool) → Progress KeepsStamps (after_reply t id r)
unfolding after_reply
after_reply-Stamps t id (ok b) = search steps depth 8
after_reply-Stamps t id (err unique_violation) = search steps
after_reply-Stamps t id (err _) = search steps

store_reply-Stamps :
    (identity : WebhookIdentity) (fails : DatabaseError) (t : Ticket) (body : String) (id now : ℕ)
    → Progress KeepsStamps (store_reply identity fails t body id now)
unfolding store_reply
store_reply-Stamps identity fails t body id now = record {
  at = λ w a.
      let (r, w') = write_reply identity fails t body id now w in
      (after_reply-Stamps t id r).at w' ((write_reply-Stamps identity fails t body id now).at w a);
}

record_ignored-Stamps :
    (identity : WebhookIdentity) (fails : DatabaseError) (reason : String)
    → Progress KeepsStamps (record_ignored_event identity fails reason)
unfolding record_ignored_event
record_ignored-Stamps identity fails reason =
    search (steps, by_tables, same_tickets, fail_with-Stamps) depth 12

module _ (text : TextFunctions) (fetching others : State → State) (fails : DatabaseError)
    (fetching-Stamps : (w : State) → Stamps w → Stamps (fetching w))
    (others-Stamps : (w : State) → Stamps w → Stamps (others w)) where
  by_fetching : Progress KeepsStamps (modify fetching)
  by_fetching = by_modify fetching fetching-Stamps

  by_others : Progress KeepsStamps (modify others)
  by_others = by_modify others others-Stamps

  by_awaited : {A : Type 0} (r : Result A) → Progress KeepsStamps (awaited r)
  by_awaited (ok a) = record { at = λ w a. a }
  by_awaited (err e) = record { at = λ w a. a }

  for_ticket-Stamps :
      (identity : WebhookIdentity) (sender body : String) (found : Option Ticket)
      (address : Option String) (id now : ℕ)
      → Progress KeepsStamps
          (handle_for_ticket text others fails identity sender body found address id now)
  unfolding handle_for_ticket
  for_ticket-Stamps identity sender body none address id now =
      record_ignored-Stamps identity fails _
  for_ticket-Stamps identity sender body (some t) none id now =
      record_ignored-Stamps identity fails _
  for_ticket-Stamps identity sender body (some t) (some address) id now =
      search (steps, by_others, record_ignored-Stamps, store_reply-Stamps) depth 10

  for_id-Stamps :
      (identity : WebhookIdentity) (sender body : String) (ticket_id : Option ℕ) (id now : ℕ)
      → Progress KeepsStamps (handle_for_id text others fails identity sender body ticket_id id now)
  unfolding handle_for_id
  for_id-Stamps identity sender body none id now = record_ignored-Stamps identity fails _
  for_id-Stamps identity sender body (some k) id now = search (steps, for_ticket-Stamps) depth 10

  received-Stamps :
      (event : ReceivedEvent) (answer : ProviderAnswer) (identity : WebhookIdentity) (id now : ℕ)
      → Progress KeepsStamps
          (handle_received_email text fetching others fails event answer identity id now)
  unfolding handle_received_email
  received-Stamps event answer identity id now =
      search (steps, by_fetching, by_awaited, for_id-Stamps) depth 10

  -- An email keeps the time stamps of all tickets in step with their status, if what is committed
  -- meanwhile does.
  pub handle_received_email-Stamps :
      (event : ReceivedEvent) (answer : ProviderAnswer) (identity : WebhookIdentity) (id now : ℕ)
      (w : State)
      → Stamps w
      → Stamps (handle_received_email text fetching others fails event answer identity id now w).1
  handle_received_email-Stamps event answer identity id now w =
      (received-Stamps event answer identity id now).at w
