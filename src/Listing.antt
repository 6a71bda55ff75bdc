-- ===== src/Listing.antt =====
-- Paged lists: the envelope that TicketsService.list, CustomersService.list and AuditService.list
-- build around `findMany` with `orderBy`, `skip` and `take`, and `count`.
use opsdesk.Base.{
  ltb, if◌then◌else◌, ◌==◌, length, take, drop, ℕ, ◌+◌, ◌-◌, ◌*◌, ◌/◌, Bool, List, nat_eq,
}
pub mod Order
pub mod Pages
pub mod Filters

pub record Pagination : Type 0 where
  pub page : ℕ
  pub limit : ℕ
  pub total : ℕ
  pub total_pages : ℕ
  pub has_next_page : Bool
  pub has_previous_page : Bool

pub record Page (A : Type 0) : Type 0 where
  pub rows : List A
  pub pagination : Pagination

-- `Math.ceil(total / limit)`
abbrev pub ceil_div : ℕ → ℕ → ℕ
ceil_div total limit = (total + limit - 1) / limit

abbrev pub pages_of : ℕ → ℕ → ℕ
pages_of total limit = if total == 0 then 0 else ceil_div total limit

-- a page of the rows that match, which `orderBy` has put in order
unfoldable pub paginate : {A : Type 0} → (page limit : ℕ) → List A → Page A
paginate page limit ordered =
    let total = length ordered in
    let total_pages = pages_of total limit in
    record {
      rows = take limit (drop ((page - 1) * limit) ordered);
      pagination = record {
        page = page;
        limit = limit;
        total = total;
        total_pages = total_pages;
        has_next_page = ltb page total_pages;
        has_previous_page = ltb 1 page;
      };
    }
