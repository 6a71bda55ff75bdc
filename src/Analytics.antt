-- ===== src/Analytics.antt =====
-- apps/api/src/analytics/analytics.service.ts: getOverview, with buildEmailHealth.
pub mod Groups
pub mod Trends
pub mod Workload
pub mod Grouped
pub mod Volume
pub mod Statuses
pub mod Counts
pub mod Load
use opsdesk.Base.{
  ltb, if◌then◌else◌, ◌==◌, ◌!=◌, find_many, count, is_none, ℕ, ◌+◌, ◌-◌, ◌&&◌, Option, none, some,
  List, nat_eq, option_eq,
}
use opsdesk.Enums.{
  Role, TicketStatus, TicketPriority, TicketSource, EmailDeliveryStatus, role_eq, ticket_status_eq,
  ticket_priority_eq, ticket_source_eq, email_delivery_status_eq,
}
use opsdesk.Schema.{Ticket}
use opsdesk.State.{State}
use opsdesk.Listing.Order.{ascending, order_by}
use opsdesk.Analytics.Trends.{AnalyticsRange}
use opsdesk.Analytics.Workload.{MemberWorkload}
use opsdesk.Analytics.Groups.{group_by, written, pair_eq}
use Trends.{
  DailyVolume, Window, build_daily_volume, get_created_trend, get_resolved_trend, get_window,
  is_within, total_of,
}
use Workload.{build_workload, is_active, is_assigned_active, workload_key}

-- The queries run side by side, so that each may read a state of its own.
pub data Query : Type 0 where
  status_groups priority_groups source_groups urgent_active unassigned_active : Query
  customer_total customer_active customers_created email_groups member_rows : Query
  workload_groups created_trend resolved_trend : Query

abbrev pub tickets_of : ℕ → State → List Ticket
tickets_of org w = find_many (λ t. t.organization_id == org) w.tickets

-- a rate is its two terms, before it is rounded to hundredths of a percent
pub record EmailHealth : Type 0 where
  pub total_in_period : ℕ
  pub delivered : ℕ
  pub failed : ℕ
  pub in_flight : ℕ
  pub delivery_rate : Option (ℕ × ℕ)
  pub failure_rate : Option (ℕ × ℕ)
  pub by_status : EmailDeliveryStatus → ℕ

abbrev rate : ℕ → ℕ → Option (ℕ × ℕ)
rate part terminal = if terminal == 0 then none else some (part, terminal)

unfoldable pub build_email_health : (EmailDeliveryStatus → ℕ) → EmailHealth
build_email_health n =
    let failed =
      n EmailDeliveryStatus.bounced
      + n EmailDeliveryStatus.complained
      + n EmailDeliveryStatus.suppressed
      + n EmailDeliveryStatus.failed in
    let in_flight =
      n EmailDeliveryStatus.pending
      + n EmailDeliveryStatus.sending
      + n EmailDeliveryStatus.sent
      + n EmailDeliveryStatus.delayed in
    let terminal = n EmailDeliveryStatus.delivered + failed in
    record {
      total_in_period =
          n EmailDeliveryStatus.pending
          + n EmailDeliveryStatus.sending
          + n EmailDeliveryStatus.sent
          + n EmailDeliveryStatus.delayed
          + n EmailDeliveryStatus.delivered
          + n EmailDeliveryStatus.bounced
          + n EmailDeliveryStatus.complained
          + n EmailDeliveryStatus.suppressed
          + n EmailDeliveryStatus.failed;
      delivered = n EmailDeliveryStatus.delivered;
      failed = failed;
      in_flight = in_flight;
      delivery_rate = rate (n EmailDeliveryStatus.delivered) terminal;
      failure_rate = rate failed terminal;
      by_status = n;
    }

pub record TicketFigures : Type 0 where
  pub total : ℕ
  pub active : ℕ
  pub urgent_active : ℕ
  pub unassigned_active : ℕ
  pub created_in_period : ℕ
  pub resolved_in_period : ℕ
  pub by_status : TicketStatus → ℕ
  pub by_priority : TicketPriority → ℕ
  pub by_source : TicketSource → ℕ

-- the difference of two counts, which may come out below zero
pub data ℤ : Type 0 where
  pos negsuc : ℕ → ℤ

abbrev pub minus : ℕ → ℕ → ℤ
minus a b = if ltb a b then negsuc (b - a - 1) else pos (a - b)

pub record CustomerFigures : Type 0 where
  pub total : ℕ
  pub active : ℕ
  pub archived : ℤ
  pub created_in_period : ℕ

pub record Overview : Type 0 where
  pub window : Window
  pub tickets : TicketFigures
  pub ticket_volume : List DailyVolume
  pub customers : CustomerFigures
  pub workload : List MemberWorkload
  pub email : EmailHealth

module _ (at : Query → State) (org : ℕ) where
  unfoldable pub ticket_figures : List (ℕ × ℕ) → List (ℕ × ℕ) → TicketFigures
  ticket_figures created_rows resolved_rows =
      let by_status =
        written (λ s. 0) (group_by (λ t. t.status) (tickets_of org (at status_groups))) in
      record {
        total =
            by_status TicketStatus.opened
            + by_status TicketStatus.pending
            + by_status TicketStatus.resolved
            + by_status TicketStatus.closed;
        active = by_status TicketStatus.opened + by_status TicketStatus.pending;
        urgent_active =
            count
              (λ t.
                (t.organization_id == org)
                && (t.priority == TicketPriority.urgent)
                && is_active t.status)
              (at urgent_active).tickets;
        unassigned_active =
            count
              (λ t.
                (t.organization_id == org)
                && is_none t.assignee_membership_id
                && is_active t.status)
              (at unassigned_active).tickets;
        created_in_period = total_of created_rows;
        resolved_in_period = total_of resolved_rows;
        by_status = by_status;
        by_priority =
            written (λ p. 0) (group_by (λ t. t.priority) (tickets_of org (at priority_groups)));
        by_source = written (λ s. 0) (group_by (λ t. t.source) (tickets_of org (at source_groups)));
      }

  unfoldable pub customer_figures : ℕ → ℕ → CustomerFigures
  customer_figures from to =
      let total = count (λ c. c.organization_id == org) (at customer_total).customers in
      let active =
        count (λ c. (c.organization_id == org) && is_none c.archived_at)
          (at customer_active).customers in
      record {
        total = total;
        active = active;
        archived = minus total active;
        created_in_period =
            count (λ c. (c.organization_id == org) && is_within from to c.created_at)
              (at customers_created).customers;
      }

  -- members of one time stand in the order of their ids
  unfoldable pub member_workloads : List MemberWorkload
  member_workloads =
      build_workload
        (order_by (ascending (λ m. m.created_at) (λ m. m.id)) (
          find_many (λ m. (m.organization_id == org) && (m.role != Role.viewer))
            (at member_rows).memberships))
        (group_by workload_key (find_many (is_assigned_active org) (at workload_groups).tickets))

  unfoldable pub email_counts : ℕ → ℕ → EmailDeliveryStatus → ℕ
  email_counts from to =
      written (λ s. 0)
        (group_by (λ d. d.status)
          (find_many (λ d. (d.organization_id == org) && is_within from to d.created_at)
            (at email_groups).deliveries))

  unfoldable pub get_overview : AnalyticsRange → ℕ → Overview
  get_overview range now =
      let window = get_window range now in
      let created_rows = get_created_trend org window.from window.to (at created_trend) in
      let resolved_rows = get_resolved_trend org window.from window.to (at resolved_trend) in
      record {
        window = window;
        tickets = ticket_figures created_rows resolved_rows;
        ticket_volume = build_daily_volume window.from window.days created_rows resolved_rows;
        customers = customer_figures window.from window.to;
        workload = member_workloads;
        email = build_email_health (email_counts window.from window.to);
      }
