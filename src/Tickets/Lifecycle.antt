-- ===== src/Tickets/Lifecycle.antt =====
-- The time stamps of a ticket agree with its status, whatever the methods of TicketsService do.
use opsdesk.Base.{
  All, All-update_many, is_none, by_pure, by_throw, by_gets, by_or_throw, by_if, by_transaction,
  by_reject, by_bind, by_then, by_modify, Keeps, Keeps-Preorder, Preorder, Progress, ℕ, ◌≡◌, refl,
  subst, Bool, true, false, not, ◌&&◌, Option, arith,
}
use opsdesk.Enums.{TicketStatus}
use opsdesk.Schema.{Ticket}
use opsdesk.State.{TenantContext, State, Published}
use opsdesk.Audit.{record_for_tenant, Metadata}
use opsdesk.Schema.{AuditAction, AuditEntityType}
use opsdesk.Tickets.Queries.{require_ticket, touch_tickets, update_ticket, publish}
use opsdesk.Tickets.{set_status, with_status, unchanged, is_status_transition_allowed}

-- Open and pending tickets have neither stamp, resolved ones the first, closed ones both.
abbrev pub has_stamps : TicketStatus → Option ℕ → Option ℕ → Bool
has_stamps TicketStatus.opened resolved closed = is_none resolved && is_none closed
has_stamps TicketStatus.pending resolved closed = is_none resolved && is_none closed
has_stamps TicketStatus.resolved resolved closed = not (is_none resolved) && is_none closed
has_stamps TicketStatus.closed resolved closed = not (is_none resolved) && not (is_none closed)

abbrev pub Stamped : Ticket → Type 0
Stamped t = has_stamps t.status t.resolved_at t.closed_at ≡ true

abbrev pub Stamps : State → Type 0
Stamps w = All Stamped w.tickets

abbrev pub KeepsStamps : State → State → Type 0
KeepsStamps = Keeps Stamps

pub Stamps-Preorder : Preorder KeepsStamps
Stamps-Preorder = Keeps-Preorder Stamps

pub by_touch :
    (p : Ticket → Bool) (f : Ticket → Ticket)
    → ((x : Ticket) → p x ≡ true → Stamped x → Stamped (f x))
    → Progress KeepsStamps (touch_tickets p f)
by_touch p f keep = by_modify _ (λ w a. All-update_many Stamped p f w.tickets keep a)

pub by_event : (e : Published) → Progress KeepsStamps (publish e)
by_event e = by_modify _ (λ w a. a)

pub by_audit :
    (tenant : TenantContext) (action : AuditAction) (entity : AuditEntityType) (id : ℕ)
    (metadata : Metadata) (now : ℕ)
    → Progress KeepsStamps (record_for_tenant tenant action entity id metadata now)
unfolding record_for_tenant
by_audit tenant action entity id metadata now = by_modify _ (λ w a. a)

pub by_require : (org ticket_id : ℕ) → Progress KeepsStamps (require_ticket org ticket_id)
unfolding require_ticket
by_require org ticket_id = search (by_bind, by_gets, by_or_throw, Stamps-Preorder)

pub ruleset steps = (
  by_pure, by_throw, by_gets, by_or_throw, by_if, by_transaction, by_reject, by_bind, by_then,
  by_touch, by_event, by_audit, by_require, Stamps-Preorder,
)

pub by_update_ticket :
    (id : ℕ) (f : Ticket → Ticket)
    → ((x : Ticket) → Stamped x → Stamped (f x))
    → Progress KeepsStamps (update_ticket id f)
unfolding update_ticket
by_update_ticket id f keep = search steps depth 10

-- the status that an allowed transition leads to has its stamps
with_status-Stamped :
    (read next : TicketStatus) (now : ℕ) (x : Ticket)
    → not (is_status_transition_allowed read next) ≡ false
    → has_stamps read x.resolved_at x.closed_at ≡ true
    → Stamped (with_status next now x)
unfolding is_status_transition_allowed with_status
with_status-Stamped read TicketStatus.opened now x legal s = refl
with_status-Stamped TicketStatus.opened TicketStatus.pending now x legal s = s
with_status-Stamped _ TicketStatus.pending now x legal s = absurd (ground (arith, legal))
with_status-Stamped read TicketStatus.resolved now x legal s = refl
with_status-Stamped TicketStatus.resolved TicketStatus.closed now x legal s = ground (arith, s)
with_status-Stamped _ TicketStatus.closed now x legal s = absurd (ground (arith, legal))

status_rows :
    (tenant : TenantContext) (t : Ticket) (next : TicketStatus) (now : ℕ)
    → not (is_status_transition_allowed t.status next) ≡ false
    → (x : Ticket) → unchanged tenant.organization_id t x ≡ true
    → Stamped x
    → Stamped (with_status next now x)
status_rows tenant t next now legal x same s =
    with_status-Stamped t.status next now x legal
      (subst (λ r. has_stamps r x.resolved_at x.closed_at ≡ true) (ground (arith, same)) s)

pub by_set_status :
    (tenant : TenantContext) (t : Ticket) (next : TicketStatus) (now : ℕ)
    → not (is_status_transition_allowed t.status next) ≡ false
    → Progress KeepsStamps (set_status tenant t next now)
unfolding set_status
by_set_status tenant t next now legal = search (steps, status_rows) depth 12
