-- ===== src/Analytics/Counts.antt =====
-- The figures of the overview are the numbers of the rows that they name.
use opsdesk.Base.{
  leb, ◌==◌, count, is_none, ℕ, ◌+◌, ◌≡◌, refl, ap, not, ◌&&◌, ◌||◌, Option, none, some, List, [],
  ◌∷◌, arith, option_eq, nat_eq,
}
use opsdesk.Enums.{
  TicketStatus, ticket_status_eq, ticket_priority_eq, ticket_source_eq, email_delivery_status_eq,
  role_eq, TicketPriority, TicketSource,
}
use opsdesk.Schema.{Ticket, EmailDelivery, Customer}
use opsdesk.Analytics.Groups.{pair_eq}
use opsdesk.Analytics.{
  Query, build_email_health, customer_active, customer_figures, customer_total, email_counts,
  email_groups, get_overview, minus, pos, priority_groups, source_groups, status_groups,
  ticket_figures,
}
use opsdesk.Analytics.Trends.{AnalyticsRange, get_window}
use opsdesk.State.{State}
use opsdesk.Analytics.Grouped.{group_by-find_many}
use opsdesk.Analytics.Statuses.{count-statuses, count-active, count-emails, count-archived}

-- the two tests for a column without a value
no_value : (o : Option ℕ) → is_none o ≡ (o == none)
no_value none = refl
no_value (some t) = refl

count-active_customers :
    (org : ℕ) (xs : List Customer)
    → count (λ c. (c.organization_id == org) && is_none c.archived_at) xs
      ≡ count (λ c. (c.organization_id == org) && (c.archived_at == none)) xs
unfolding count
count-active_customers org [] = refl
count-active_customers org (c ∷ cs) =
    rw (no_value c.archived_at, count-active_customers org cs) refl

-- The figures of an overview are the numbers of the rows that they name, each in the state that its
-- query reads, whatever other requests write between the queries: a status has the organization's
-- tickets with that status, the total all of its tickets, the active ones those that are open or
-- pending; a priority and a source likewise; the deliveries of the period are the delivered, the
-- failed and those in flight together; the archived customers are the difference of the
-- organization's customers in the state of one query and its active ones in that of another.
pub overview_counts :
    (at : Query → State) (org : ℕ) (range : AnalyticsRange) (now : ℕ) (s : TicketStatus)
    (p : TicketPriority) (source : TicketSource)
    → let o = get_overview at org range now in
      (o.tickets.by_status s
        ≡ count (λ t. (t.organization_id == org) && (t.status == s)) (at status_groups).tickets)
      × (o.tickets.total ≡ count (λ t. t.organization_id == org) (at status_groups).tickets)
      × (o.tickets.active
          ≡ count
              (λ t.
                (t.organization_id == org)
                && ((t.status == TicketStatus.opened) || (t.status == TicketStatus.pending)))
              (at status_groups).tickets)
      × (o.tickets.by_priority p
          ≡ count
              (λ t. (t.organization_id == org) && (t.priority == p))
              (at priority_groups).tickets)
      × (o.tickets.by_source source
          ≡ count
              (λ t. (t.organization_id == org) && (t.source == source))
              (at source_groups).tickets)
      × (o.email.total_in_period
          ≡ count
              (λ d.
                (d.organization_id == org)
                && (leb o.window.from d.created_at && leb d.created_at now))
              (at email_groups).deliveries)
      × (o.email.delivered + o.email.failed + o.email.in_flight ≡ o.email.total_in_period)
      × (o.customers.archived
          ≡ minus (count (λ c. c.organization_id == org) (at customer_total).customers) (
              count
                (λ c. (c.organization_id == org) && (c.archived_at == none))
                (at customer_active).customers))
unfolding get_overview ticket_figures customer_figures get_window build_email_health email_counts
overview_counts at org range now s p source =
    let mine = λ (t : Ticket). t.organization_id == org in
    let status = λ (k : TicketStatus).
      group_by-find_many (λ (t : Ticket). t.status) mine (at status_groups).tickets k in
    (
      status s,
      rw
          (
            status TicketStatus.opened,
            status TicketStatus.pending,
            status TicketStatus.resolved,
            status TicketStatus.closed,
          )
          (count-statuses mine (at status_groups).tickets),
      rw (status TicketStatus.opened, status TicketStatus.pending)
          (count-active mine (at status_groups).tickets),
      group_by-find_many (λ (t : Ticket). t.priority) mine (at priority_groups).tickets p,
      group_by-find_many (λ (t : Ticket). t.source) mine (at source_groups).tickets source,
      count-emails _ (at email_groups).deliveries _
          (group_by-find_many (λ (d : EmailDelivery). d.status) _ (at email_groups).deliveries),
      omega arith,
      ap (minus _) (count-active_customers org (at customer_active).customers),
    )

-- If the two counts of customers read the same state, the archived customers of an overview are the
-- organization's customers with an archival date.
pub overview_archived :
    (at : Query → State) (org : ℕ) (range : AnalyticsRange) (now : ℕ)
    → at customer_total ≡ at customer_active
    → (get_overview at org range now).customers.archived
      ≡ pos (
          count
            (λ c. (c.organization_id == org) && not (is_none c.archived_at))
            (at customer_total).customers)
unfolding get_overview customer_figures
overview_archived at org range now same =
    rw same (count-archived org (at customer_active).customers)
