-- ===== src/Tests/Analytics.antt =====
-- The overview of organization 1.
use opsdesk.Base.{
  ◌==◌, length, find_many, count, All, ℕ, ◌+◌, ◌*◌, ◌≡◌, refl, some, [], ◌∷◌, map, arith, nat_eq,
}
use opsdesk.Enums.{
  TicketStatus, TicketPriority, TicketSource, ticket_status_eq, ticket_priority_eq,
  ticket_source_eq, role_eq,
}
use opsdesk.State.{State}
use opsdesk.Tests.Tickets.{desk}
use opsdesk.Tests.Inbound.{kim}
use opsdesk.Listing.Order.{InOrder}
use opsdesk.Analytics.{Query, get_overview, Overview, customer_figures, negsuc, pos, ticket_figures}
use opsdesk.Analytics.Groups.{group_by, count_in}
use opsdesk.Analytics.Trends.{day_ms, get_window, get_created_trend, AnalyticsRange}
use opsdesk.Analytics.Volume.{overview_volume, sum_of}
use opsdesk.Analytics.Counts.{overview_counts}
use opsdesk.Analytics.Load.{overview_workload, IsCounted, heavier}
use opsdesk.Schema.{Ticket}

abbrev yesterday : Ticket → Ticket
yesterday t = record t { created_at = 99 * day_ms + 5; assignee_membership_id = some 13 }

-- two tickets of the day before, which membership 13 works on
abbrev busy : State
busy = record desk { tickets = map yesterday desk.tickets }

abbrev at_desk : Query → State
at_desk q = busy

-- some day of 1970
abbrev day_100 : ℕ
day_100 = 100 * day_ms

abbrev week : Overview
week = get_overview at_desk 1 AnalyticsRange.last_7_days day_100

overview_volume_example :
    (length week.ticket_volume ≡ 7)
    × (sum_of (λ v. v.created) week.ticket_volume ≡ week.tickets.created_in_period)
    × (sum_of (λ v. v.resolved) week.ticket_volume ≡ week.tickets.resolved_in_period)
overview_volume_example = overview_volume at_desk 1 AnalyticsRange.last_7_days day_100 (omega arith)

two_created : week.tickets.created_in_period ≡ 2
unfolding get_overview get_window ticket_figures get_created_trend group_by count_in find_many
two_created = refl

overview_counts_example :
    (week.tickets.by_status TicketStatus.opened ≡ 1)
    × (week.tickets.total ≡ 2)
    × (week.tickets.active ≡ 2)
    × (week.tickets.by_priority TicketPriority.normal ≡ 2)
    × (week.tickets.by_source TicketSource.email ≡ 0)
    × (week.email.total_in_period ≡ 0)
    × (week.email.delivered + week.email.failed + week.email.in_flight ≡ week.email.total_in_period)
    × (week.customers.archived ≡ pos 0)
unfolding count
overview_counts_example =
    overview_counts at_desk 1 AnalyticsRange.last_7_days day_100 TicketStatus.opened
      TicketPriority.normal TicketSource.email

overview_workload_example :
    (count (λ e. e.membership_id == 13) week.workload ≡ 1)
    × All (IsCounted 1 busy.tickets) week.workload
    × InOrder heavier week.workload
unfolding count
overview_workload_example =
    overview_workload at_desk 1 AnalyticsRange.last_7_days day_100 (λ id role user. id == 13)

-- a customer is created between the two counts
abbrev crossed : Query → State
crossed Query.customer_active = record busy { customers = kim ∷ [] }
crossed _ = busy

below_zero :
    (get_overview crossed 1 AnalyticsRange.last_7_days day_100).customers.archived ≡ negsuc 0
unfolding get_overview customer_figures count
below_zero = refl
