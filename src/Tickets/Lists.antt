-- ===== src/Tickets/Lists.antt =====
-- `list` and `listMessages` of TicketsService. `contains` and `insensitive` stand for the
-- database's `contains` filter, with the search text first; `mapTicket` is for the answer only.
use opsdesk.Base.{
  ◌==◌, length, take, find_first, find_many, any, pure, gets, ℕ, ◌<◌, String, Bool, false, ◌&&◌,
  ◌||◌, Option, none, some, List, ◌>>=◌, string_eq, option_eq, nat_eq,
}
use mathlib.Core.List.{reverse}
use opsdesk.Enums.{TicketStatus, TicketPriority, ticket_status_eq, ticket_priority_eq}
use opsdesk.Schema.{Ticket, Customer, TicketMessage}
use opsdesk.State.{State, Action}
use opsdesk.Tickets.Queries.{require_ticket}
use opsdesk.Listing.{Page, paginate}
use opsdesk.Listing.Filters.{in_column, where_given, where_text}
use opsdesk.Listing.Order.{Asymmetric, ascending, descending, descending-Asymmetric, order_by}
use opsdesk.Listing.Pages.{Walked, follow, follow-Walked}

pub data TicketSortBy : Type 0 where
  by_created by_updated : TicketSortBy

pub data TicketSortOrder : Type 0 where
  asc desc : TicketSortOrder

pub record ListTicketsOptions : Type 0 where
  pub page : ℕ
  pub limit : ℕ
  pub search : Option String
  pub status : Option TicketStatus
  pub priority : Option TicketPriority
  pub customer_id : Option ℕ
  pub assignee_membership_id : Option ℕ
  pub tag_id : Option ℕ
  pub sort_by : TicketSortBy
  pub sort_order : TicketSortOrder

-- `orderBy`
unfoldable pub ticket_order : TicketSortBy → TicketSortOrder → Ticket → Ticket → Bool
ticket_order by_created desc = descending (λ t. t.created_at) (λ t. t.id)
ticket_order by_created asc = ascending (λ t. t.created_at) (λ t. t.id)
ticket_order by_updated desc = descending (λ t. t.updated_at) (λ t. t.id)
ticket_order by_updated asc = ascending (λ t. t.updated_at) (λ t. t.id)

module _ (contains insensitive : String → String → Bool) where
  abbrev customer_contains : String → Customer → Bool
  customer_contains search c =
      insensitive search c.name
      || in_column (insensitive search) c.email
      || in_column (contains search) c.phone
      || in_column (insensitive search) c.company

  abbrev customer_found : String → Option Customer → Bool
  customer_found search none = false
  customer_found search (some c) = customer_contains search c

  -- `where`
  unfoldable pub is_listed : ℕ → ListTicketsOptions → State → Ticket → Bool
  is_listed org o w t =
      (t.organization_id == org)
      && where_given o.status (λ s. t.status == s)
      && where_given o.priority (λ p. t.priority == p)
      && where_given o.customer_id (λ c. t.customer_id == c)
      && where_given o.assignee_membership_id (λ m. t.assignee_membership_id == some m)
      && where_given o.tag_id
          (λ tag. any (λ l. (l.ticket_id == t.id) && (l.tag_id == tag)) w.ticket_tags)
      && where_text o.search (λ search.
        insensitive search t.subject
        || in_column (insensitive search) t.description
        || customer_found search (find_first (λ c. c.id == t.customer_id) w.customers))

  unfoldable pub list : ℕ → ListTicketsOptions → State → Page Ticket
  list org o w =
      paginate o.page o.limit
        (order_by (ticket_order o.sort_by o.sort_order) (find_many (is_listed org o w) w.tickets))

-- the latest messages, the oldest of them first
unfoldable pub list_messages : ℕ → ℕ → Action (List TicketMessage)
list_messages org ticket_id = do
  ticket ← require_ticket org ticket_id
  messages ←
      gets
        (λ w. find_many (λ m. (m.organization_id == org) && (m.ticket_id == ticket.id)) w.messages)
  pure (reverse (take 100 (order_by (descending (λ m. m.created_at) (λ m. m.id)) messages)))

ticket_order-Asymmetric :
    (by : TicketSortBy) (order : TicketSortOrder) → Asymmetric (ticket_order by order)
unfolding ticket_order
ticket_order-Asymmetric by_created desc =
    descending-Asymmetric (λ (t : Ticket). t.created_at) (λ (t : Ticket). t.id)
ticket_order-Asymmetric by_created asc =
    λ x y. descending-Asymmetric (λ (t : Ticket). t.created_at) (λ (t : Ticket). t.id) y x
ticket_order-Asymmetric by_updated desc =
    descending-Asymmetric (λ (t : Ticket). t.updated_at) (λ (t : Ticket). t.id)
ticket_order-Asymmetric by_updated asc =
    λ x y. descending-Asymmetric (λ (t : Ticket). t.updated_at) (λ (t : Ticket). t.id) y x

-- Whoever follows `hasNextPage` from the first page comes to an end and has then every ticket that
-- matches, each once, in the order that was asked for, if no ticket changes meanwhile.
pub list_tickets_walk :
    (contains insensitive : String → String → Bool) (org : ℕ) (o : ListTicketsOptions) (w : State)
    (fuel : ℕ)
    → 0 < o.limit
    → length (find_many (is_listed contains insensitive org o w) w.tickets) < fuel
    → Walked
        (ticket_order o.sort_by o.sort_order)
        (find_many (is_listed contains insensitive org o w) w.tickets)
        (follow fuel (λ page. list contains insensitive org (record o { page = page }) w) 1)
unfolding list is_listed
list_tickets_walk contains insensitive org o w fuel h enough =
    follow-Walked (ticket_order o.sort_by o.sort_order)
      (find_many (is_listed contains insensitive org o w) w.tickets) o.limit fuel
      (ticket_order-Asymmetric o.sort_by o.sort_order) h enough
