-- ===== src/Tests/Listing.antt =====
-- Lists of a workspace with two tickets.
use opsdesk.Base.{
  length, find_many, ◌<◌, String, ◌≡◌, refl, Bool, false, none, some, [], ◌∷◌, arith,
}
use opsdesk.Enums.{TicketStatus}
use opsdesk.Tests.Tickets.{desk, ticket_of}
use opsdesk.Listing.Order.{order_by, insert_by}
use opsdesk.Listing.Pages.{follow, Walked}
use opsdesk.Tickets.Lists.{ListTicketsOptions, by_updated, desc, ticket_order, list_tickets_walk}
use opsdesk.Tickets.Lists.{list as list_tickets, is_listed as is_listed_ticket, list_tickets_walk}
use opsdesk.Customers.Lists.{is_listed as is_listed_customer, ListCustomersOptions, all_customers}
use opsdesk.Audit.Lists.{is_listed as is_listed_log, ListAuditLogsOptions}
use opsdesk.Listing.{paginate}

abbrev never : String → String → Bool
never s t = false

abbrev one_by_one : ListTicketsOptions
one_by_one = record {
  page = 1;
  limit = 1;
  search = none;
  status = none;
  priority = none;
  customer_id = none;
  assignee_membership_id = none;
  tag_id = none;
  sort_by = by_updated;
  sort_order = desc;
}

first_page :
    (list_tickets never never 1 one_by_one desk).rows ≡ ticket_of 2 1 TicketStatus.pending ∷ []
unfolding list_tickets is_listed_ticket paginate order_by insert_by find_many ticket_order
first_page = refl

two_tickets : length (find_many (is_listed_ticket never never 1 one_by_one desk) desk.tickets) < 5
unfolding find_many is_listed_ticket
two_tickets = omega arith

list_tickets_walk_example :
    Walked
      (ticket_order by_updated desc)
      (find_many (is_listed_ticket never never 1 one_by_one desk) desk.tickets)
      (follow 5 (λ page. list_tickets never never 1 (record one_by_one { page = page }) desk) 1)
list_tickets_walk_example =
    list_tickets_walk never never 1 one_by_one desk 5 (omega arith) two_tickets

abbrev all_pages : ListCustomersOptions
all_pages = record { page = 1; limit = 20; search = none; company = none; status = all_customers }

no_customers : length (find_many (is_listed_customer never never 1 all_pages) desk.customers) < 5
unfolding find_many
no_customers = omega arith

abbrev any_time : ListAuditLogsOptions
any_time = record {
  page = 1;
  limit = 20;
  action = none;
  entity_type = none;
  entity_id = none;
  actor_user_id = none;
  from_date = none;
  to_date = some 7;
}

no_logs : length (find_many (is_listed_log 1 any_time) desk.audit_logs) < 5
unfolding find_many
no_logs = omega arith
