-- ===== src/Tickets.antt =====
-- TicketsService of apps/api/src/tickets/tickets.service.ts: tickets, their life cycle, assignment
-- and tags. `others` is what other requests commit between the reads of a call and its writes; a
-- call that throws after it loses its own writes only.
pub mod Assignment
pub mod Transitions
pub mod Lifecycle
pub mod Parts
pub mod Requests
pub mod Service
pub mod Isolation
pub mod Tenants
pub mod Messages
pub mod Queries
pub mod Lists
use opsdesk.Base.{
  if◌then◌else◌, ◌==◌, ◌!=◌, find_first, count, any, pure, gets, or_throw, transaction, modify,
  reject, or_else, is_none, Failure, bad_request, not_found, conflict, ℕ, String, Bool, true, false,
  not, ◌&&◌, Option, none, some, List, [], ◌∷◌, ◌++◌, ◌>>=◌, ◌>>◌, option_eq, nat_eq, string_eq,
}
use Prim.Native.String
use opsdesk.Enums.{
  TicketStatus, TicketPriority, TicketSource, role_eq, ticket_status_eq, ticket_priority_eq,
}
use opsdesk.Schema
use opsdesk.Schema.{Customer, Ticket}
use opsdesk.State.{TenantContext, State, Action, Published}
use Queries.{require_ticket, publish, touch_tickets, in_org, update_ticket}
use opsdesk.Audit.{record_for_tenant}

pub record CreateTicketInput : Type 0 where
  pub customer_id : ℕ
  pub subject : String
  pub description : Option String
  pub priority : Option TicketPriority

-- `none` is a field that the request leaves out; a description can also be set to `null`.
pub record UpdateTicketInput : Type 0 where
  pub subject : Option String
  pub description : Option (Option String)
  pub priority : Option TicketPriority

abbrev pub is_active_customer : ℕ → ℕ → Customer → Bool
is_active_customer org customer_id c =
    (c.id == customer_id) && (c.organization_id == org) && (c.archived_at == none)

abbrev pub new_ticket : ℕ → CreateTicketInput → ℕ → ℕ → ℕ → Ticket
new_ticket org input customer_id id now = record {
  id = id;
  organization_id = org;
  customer_id = customer_id;
  assignee_membership_id = none;
  subject = input.subject;
  description = input.description;
  status = TicketStatus.opened;
  priority = or_else input.priority TicketPriority.normal;
  source = TicketSource.manual;
  resolved_at = none;
  closed_at = none;
  created_at = now;
  updated_at = now;
}

unfoldable pub create : (State → State) → TenantContext → CreateTicketInput → ℕ → ℕ → Action Ticket
create others tenant input id now = do
  found ←
      gets
        (λ w. find_first (is_active_customer tenant.organization_id input.customer_id) w.customers)
  customer ← or_throw found (not_found "Customer not found")
  modify others
  let ticket = new_ticket tenant.organization_id input customer.id id now
  transaction (do
    modify (λ w. record w { tickets = ticket ∷ w.tickets })
    record_for_tenant tenant Schema.ticket_created Schema.ticket id
        (("priority", Schema.ticket_priority ticket.priority)
          ∷ ("source", Schema.ticket_source ticket.source)
          ∷ [])
        now)
  publish (Published.ticket_created tenant.organization_id ticket.id)
  pure ticket

-- the fields of the request that differ from the ticket's
abbrev changed {ℓ} : {A : Type ℓ} → (A → A → Bool) → Option A → A → Bool
changed eq none old = false
changed eq (some new) old = not (eq new old)

abbrev push_if : Bool → String → List String → List String
push_if true name names = names ++ name ∷ []
push_if false name names = names

changed_fields : UpdateTicketInput → Ticket → List String
changed_fields input t =
    let a = push_if (changed (λ x y. x == y) input.subject t.subject) "subject" [] in
    let b = push_if (changed (λ x y. x == y) input.description t.description) "description" a in
    push_if (changed (λ x y. x == y) input.priority t.priority) "priority" b

abbrev pub with_fields : UpdateTicketInput → ℕ → Ticket → Ticket
with_fields input now t = record t {
  subject = or_else input.subject t.subject;
  description = or_else input.description t.description;
  priority = or_else input.priority t.priority;
  updated_at = now;
}

priority_change : UpdateTicketInput → Ticket → List (String × Schema.MetadataValue)
priority_change input t = elim input.priority [
  | none ↦ []
  | some p ↦
      if p != t.priority
      then ("priorityFrom", Schema.ticket_priority t.priority)
        ∷ ("priorityTo", Schema.ticket_priority p)
        ∷ []
      else []
]

abbrev is_empty_update : UpdateTicketInput → Bool
is_empty_update input =
    (input.subject == none) && (is_none input.description) && (input.priority == none)

pub record_fields : TenantContext → UpdateTicketInput → Ticket → ℕ → List String → Action Unit
unfolding record_for_tenant
record_fields tenant input t now [] = pure tt
record_fields tenant input t now (f ∷ fs) =
    record_for_tenant tenant Schema.ticket_updated Schema.ticket t.id
      (("changedFields", Schema.texts (f ∷ fs)) ∷ priority_change input t) now

pub record_update : TenantContext → UpdateTicketInput → Ticket → ℕ → Action Unit
unfolding record_fields
record_update tenant input t now = record_fields tenant input t now (changed_fields input t)

-- the writes of `update`
pub write_update : TenantContext → UpdateTicketInput → Ticket → ℕ → Action Ticket
unfolding record_update
write_update tenant input ticket now = do
  result ← transaction (do
    result ← update_ticket ticket.id (with_fields input now)
    record_update tenant input ticket now
    pure result)
  publish (Published.ticket_updated tenant.organization_id result.id)
  pure result

unfoldable pub update : (State → State) → TenantContext → ℕ → UpdateTicketInput → ℕ → Action Ticket
unfolding write_update record_update record_fields changed_fields priority_change
update others tenant ticket_id input now = do
  reject (is_empty_update input) (bad_request "At least one ticket field must be provided")
  ticket ← require_ticket tenant.organization_id ticket_id
  modify others
  write_update tenant input ticket now

transitions : TicketStatus → List TicketStatus
transitions TicketStatus.opened = TicketStatus.pending ∷ TicketStatus.resolved ∷ []
transitions TicketStatus.pending = TicketStatus.opened ∷ TicketStatus.resolved ∷ []
transitions TicketStatus.resolved = TicketStatus.opened ∷ TicketStatus.closed ∷ []
transitions TicketStatus.closed = TicketStatus.opened ∷ []

unfoldable pub is_status_transition_allowed : TicketStatus → TicketStatus → Bool
unfolding transitions
is_status_transition_allowed current next = any (λ s. s == next) (transitions current)

-- The `data` of the status update: the new status with its time stamps.
unfoldable pub with_status : TicketStatus → ℕ → Ticket → Ticket
with_status TicketStatus.opened now t = record t {
  status = TicketStatus.opened;
  resolved_at = none;
  closed_at = none;
  updated_at = now;
}
with_status TicketStatus.pending now t = record t {
  status = TicketStatus.pending;
  updated_at = now;
}
with_status TicketStatus.resolved now t = record t {
  status = TicketStatus.resolved;
  resolved_at = some now;
  closed_at = none;
  updated_at = now;
}
with_status TicketStatus.closed now t = record t {
  status = TicketStatus.closed;
  closed_at = some now;
  updated_at = now;
}

abbrev status_text : TicketStatus → String
status_text TicketStatus.opened = "OPEN"
status_text TicketStatus.pending = "PENDING"
status_text TicketStatus.resolved = "RESOLVED"
status_text TicketStatus.closed = "CLOSED"

abbrev lower_status_text : TicketStatus → String
lower_status_text TicketStatus.opened = "open"
lower_status_text TicketStatus.pending = "pending"
lower_status_text TicketStatus.resolved = "resolved"
lower_status_text TicketStatus.closed = "closed"

already : TicketStatus → Failure
already next = conflict (String.◌++◌ "Ticket is already " (lower_status_text next))

no_transition : TicketStatus → TicketStatus → Failure
no_transition current next = conflict (
    String.◌++◌ "Cannot transition ticket from "
      (String.◌++◌ (status_text current) (String.◌++◌ " to " (status_text next))))

-- `where: { id, organizationId, status }`
abbrev pub unchanged : ℕ → Ticket → Ticket → Bool
unchanged org read t = in_org org read.id t && (t.status == read.status)

-- the writes of `updateStatus`, a compare-and-set on the status that was read
unfoldable pub set_status : TenantContext → Ticket → TicketStatus → ℕ → Action Ticket
set_status tenant ticket next now = transaction (do
  updated ← gets (λ w. count (unchanged tenant.organization_id ticket) w.tickets)
  touch_tickets (unchanged tenant.organization_id ticket) (with_status next now)
  reject (updated != 1) (conflict "Ticket status changed concurrently")
  result ← require_ticket tenant.organization_id ticket.id
  record_for_tenant tenant Schema.ticket_status_changed Schema.ticket ticket.id
      (("from", Schema.ticket_status ticket.status) ∷ ("to", Schema.ticket_status next) ∷ []) now
  pure result)

unfoldable pub update_status :
    (State → State) → TenantContext → ℕ → TicketStatus → ℕ → Action Ticket
unfolding already no_transition
update_status others tenant ticket_id next now = do
  ticket ← require_ticket tenant.organization_id ticket_id
  reject (ticket.status == next) (already next)
  reject (not (is_status_transition_allowed ticket.status next)) (no_transition ticket.status next)
  modify others
  result ← set_status tenant ticket next now
  publish (Published.ticket_updated tenant.organization_id result.id)
  pure result
