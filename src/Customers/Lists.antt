-- ===== src/Customers/Lists.antt =====
-- `list` of CustomersService. `contains` and `insensitive` stand for the database's `contains`
-- filter, with the search text first.
use opsdesk.Base.{
  ◌==◌, length, find_many, is_none, ℕ, ◌<◌, String, Bool, true, not, ◌&&◌, ◌||◌, Option, nat_eq,
  option_eq, string_eq,
}
use opsdesk.Schema.{Customer}
use opsdesk.State.{State}
use opsdesk.Listing.{Page, paginate}
use opsdesk.Listing.Filters.{in_column, where_text}
use opsdesk.Listing.Order.{descending, descending-Asymmetric, order_by}
use opsdesk.Listing.Pages.{Walked, follow, follow-Walked}

pub data ArchiveStatus : Type 0 where
  active archived all_customers : ArchiveStatus

pub record ListCustomersOptions : Type 0 where
  pub page : ℕ
  pub limit : ℕ
  pub search : Option String
  pub company : Option String
  pub status : ArchiveStatus

abbrev archive_filter : ArchiveStatus → Customer → Bool
archive_filter active c = is_none c.archived_at
archive_filter archived c = not (is_none c.archived_at)
archive_filter all_customers c = true

abbrev pub customer_order : Customer → Customer → Bool
customer_order = descending (λ c. c.created_at) (λ c. c.id)

module _ (contains insensitive : String → String → Bool) where
  -- `where`
  unfoldable pub is_listed : ℕ → ListCustomersOptions → Customer → Bool
  is_listed org o c =
      (c.organization_id == org)
      && archive_filter o.status c
      && where_text o.company (λ company. in_column (insensitive company) c.company)
      && where_text o.search (λ search.
        insensitive search c.name
        || in_column (insensitive search) c.email
        || in_column (contains search) c.phone
        || in_column (insensitive search) c.company)

  unfoldable pub list : ℕ → ListCustomersOptions → State → Page Customer
  list org o w =
      paginate o.page o.limit (order_by customer_order (find_many (is_listed org o) w.customers))

  -- Whoever follows `hasNextPage` from the first page comes to an end and has then every customer
  -- that matches, each once, the newest first, if no customer changes meanwhile.
  pub list_customers_walk :
      (org : ℕ) (o : ListCustomersOptions) (w : State) (fuel : ℕ)
      → 0 < o.limit
      → length (find_many (is_listed org o) w.customers) < fuel
      → Walked customer_order
          (find_many (is_listed org o) w.customers)
          (follow fuel (λ page. list org (record o { page = page }) w) 1)
  unfolding list is_listed
  list_customers_walk org o w fuel h enough =
      follow-Walked customer_order (find_many (is_listed org o) w.customers) o.limit fuel
        (descending-Asymmetric (λ (c : Customer). c.created_at) (λ (c : Customer). c.id)) h enough
