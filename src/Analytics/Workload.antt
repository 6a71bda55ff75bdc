-- ===== src/Analytics/Workload.antt =====
-- buildWorkload of apps/api/src/analytics/analytics.service.ts.
use opsdesk.Base.{
  ltb, if◌then◌else◌, ◌==◌, is_none, ℕ, ◌+◌, Bool, not, ◌&&◌, ◌||◌, Option, none, some, List, [],
  ◌∷◌, map, option_eq, nat_eq,
}
use opsdesk.Enums.{Role, TicketStatus, ticket_status_eq}
use opsdesk.Listing.Order.{order_by}
use opsdesk.Schema.{Ticket, Membership}

pub record MemberWorkload : Type 0 where
  pub membership_id : ℕ
  pub role : Role
  pub user_id : ℕ
  pub open_tickets : ℕ
  pub pending_tickets : ℕ
  pub active_tickets : ℕ

-- the open and the pending tickets
abbrev pub Workload : Type 0
Workload = ℕ × ℕ

abbrev pub with_count : TicketStatus → ℕ → Workload → Workload
with_count s n (o, p) =
    (if s == TicketStatus.opened then n else o, if s == TicketStatus.pending then n else p)

-- the map after the loop over the groups, where the map before has no entry as two zeros
unfoldable pub workload_counts :
    List ((Option ℕ × TicketStatus) × ℕ) → (ℕ → Workload) → ℕ → Workload
workload_counts [] f = f
workload_counts (((none, s), n) ∷ gs) f = workload_counts gs f
workload_counts (((some m, s), n) ∷ gs) f =
    workload_counts gs (λ j. if j == m then with_count s n (f m) else f j)

abbrev pub workload_of : (ℕ → Workload) → Membership → MemberWorkload
workload_of counts m = record {
  membership_id = m.id;
  role = m.role;
  user_id = m.user_id;
  open_tickets = (counts m.id).0;
  pending_tickets = (counts m.id).1;
  active_tickets = (counts m.id).0 + (counts m.id).1;
}

-- `sort` is stable
unfoldable pub build_workload :
    List Membership → List ((Option ℕ × TicketStatus) × ℕ) → List MemberWorkload
build_workload members groups =
    order_by (λ a b. ltb b.active_tickets a.active_tickets)
      (map (workload_of (workload_counts groups (λ m. (0, 0)))) members)

abbrev pub is_active : TicketStatus → Bool
is_active s = (s == TicketStatus.opened) || (s == TicketStatus.pending)

-- `by` of the groups of the members' tickets
abbrev pub workload_key : Ticket → Option ℕ × TicketStatus
workload_key t = (t.assignee_membership_id, t.status)

abbrev pub is_assigned_active : ℕ → Ticket → Bool
is_assigned_active org t =
    (t.organization_id == org) && not (is_none t.assignee_membership_id) && is_active t.status
