-- ===== src/Analytics/Statuses.antt =====
-- Rows counted by status, and the rows that no count leaves out.
use opsdesk.Base.{
  ◌==◌, count, is_none, ℕ, ◌+◌, ◌≡◌, refl, Bool, not, ◌&&◌, List, [], ◌∷◌, arith, option_eq, nat_eq,
}
use opsdesk.Enums.{
  TicketStatus, ticket_status_eq, ticket_priority_eq, ticket_source_eq, email_delivery_status_eq,
  role_eq, EmailDeliveryStatus,
}
use opsdesk.Schema.{Ticket, Customer, EmailDelivery}
use opsdesk.Analytics.Groups.{pair_eq}
use opsdesk.Analytics.Workload.{is_active}
use opsdesk.Analytics.{minus, pos}

-- each row has one status, so that the counts of the statuses are together the count of the rows
pub count-statuses :
    (q : Ticket → Bool) (xs : List Ticket)
    → count (λ t. q t && (t.status == TicketStatus.opened)) xs
        + count (λ t. q t && (t.status == TicketStatus.pending)) xs
        + count (λ t. q t && (t.status == TicketStatus.resolved)) xs
        + count (λ t. q t && (t.status == TicketStatus.closed)) xs
      ≡ count q xs
unfolding count
count-statuses q [] = refl
count-statuses q (t ∷ ts) = ground (arith, count-statuses q ts)

pub count-active :
    (q : Ticket → Bool) (xs : List Ticket)
    → count (λ t. q t && (t.status == TicketStatus.opened)) xs
        + count (λ t. q t && (t.status == TicketStatus.pending)) xs
      ≡ count (λ t. q t && is_active t.status) xs
unfolding count
count-active q [] = refl
count-active q (t ∷ ts) = ground (arith, count-active q ts)

-- the deliveries that a test selects and that have a status
abbrev deliveries_at : (EmailDelivery → Bool) → List EmailDelivery → EmailDeliveryStatus → ℕ
deliveries_at q xs k = count (λ d. q d && (d.status == k)) xs

count-delivery_statuses :
    (q : EmailDelivery → Bool) (xs : List EmailDelivery)
    → deliveries_at q xs EmailDeliveryStatus.pending
        + deliveries_at q xs EmailDeliveryStatus.sending
        + deliveries_at q xs EmailDeliveryStatus.sent
        + deliveries_at q xs EmailDeliveryStatus.delayed
        + deliveries_at q xs EmailDeliveryStatus.delivered
        + deliveries_at q xs EmailDeliveryStatus.bounced
        + deliveries_at q xs EmailDeliveryStatus.complained
        + deliveries_at q xs EmailDeliveryStatus.suppressed
        + deliveries_at q xs EmailDeliveryStatus.failed
      ≡ count q xs
unfolding count
count-delivery_statuses q [] = refl
count-delivery_statuses q (d ∷ ds) = ground (arith, count-delivery_statuses q ds)

pub count-emails :
    (q : EmailDelivery → Bool) (xs : List EmailDelivery)
    → (s : EmailDeliveryStatus → ℕ)
    → ((k : EmailDeliveryStatus) → s k ≡ count (λ d. q d && (d.status == k)) xs)
    → s EmailDeliveryStatus.pending
        + s EmailDeliveryStatus.sending
        + s EmailDeliveryStatus.sent
        + s EmailDeliveryStatus.delayed
        + s EmailDeliveryStatus.delivered
        + s EmailDeliveryStatus.bounced
        + s EmailDeliveryStatus.complained
        + s EmailDeliveryStatus.suppressed
        + s EmailDeliveryStatus.failed
      ≡ count q xs
count-emails q xs s h =
    rw
      (
        h EmailDeliveryStatus.pending,
        h EmailDeliveryStatus.sending,
        h EmailDeliveryStatus.sent,
        h EmailDeliveryStatus.delayed,
        h EmailDeliveryStatus.delivered,
        h EmailDeliveryStatus.bounced,
        h EmailDeliveryStatus.complained,
        h EmailDeliveryStatus.suppressed,
        h EmailDeliveryStatus.failed,
      )
      (count-delivery_statuses q xs)

count-customers :
    (q : Customer → Bool) (xs : List Customer)
    → count (λ c. q c && is_none c.archived_at) xs
        + count (λ c. q c && not (is_none c.archived_at)) xs
      ≡ count q xs
unfolding count
count-customers q [] = refl
count-customers q (c ∷ cs) = ground (arith, count-customers q cs)

minus-add : (a b c : ℕ) → b + c ≡ a → minus a b ≡ pos c
minus-add a b c h = ground (arith, h)

pub count-archived :
    (org : ℕ) (xs : List Customer)
    → minus
        (count (λ c. c.organization_id == org) xs)
        (count (λ c. (c.organization_id == org) && is_none c.archived_at) xs)
      ≡ pos (count (λ c. (c.organization_id == org) && not (is_none c.archived_at)) xs)
count-archived org xs = minus-add _ _ _ (count-customers (λ c. c.organization_id == org) xs)
