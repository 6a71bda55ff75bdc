-- ===== src/Customers.antt =====
-- CustomersService of apps/api/src/customers/customers.service.ts: create, update, archive, restore and
-- findOne. `lower` stands for `toLowerCase()` and for how the database compares texts of either
-- case; `others` for what other requests commit between the reads of a call and its transaction.
pub mod Addresses
pub mod Lists
pub mod Changes
use opsdesk.Base.{
  if◌then◌else◌, ◌==◌, length, find_first, update_many, any, pure, gets, or_throw, transaction,
  modify, reject, or_else, is_none, bad_request, not_found, conflict, unexpected, ℕ, String, Bool,
  false, not, ◌&&◌, Option, none, some, List, [], ◌∷◌, ◌>>=◌, ◌>>◌, string_eq, nat_eq, option_eq,
}
use opsdesk.Schema
use opsdesk.Schema.{Customer, AuditAction}
use opsdesk.State.{TenantContext, State, Action}
use opsdesk.Audit.{record_for_tenant, Metadata}

pub record CreateCustomerInput : Type 0 where
  pub name : String
  pub email : Option String
  pub phone : Option String
  pub company : Option String
  pub notes : Option String

-- `none` is a field that the request leaves out; all but the name can also be set to `null`.
pub record UpdateCustomerInput : Type 0 where
  pub name : Option String
  pub email : Option (Option String)
  pub phone : Option (Option String)
  pub company : Option (Option String)
  pub notes : Option (Option String)

abbrev pub is_customer : ℕ → ℕ → Customer → Bool
is_customer org id c = (c.id == id) && (c.organization_id == org)

abbrev pub has_address : (String → String) → Option String → String → Bool
has_address lower none address = false
has_address lower (some email) address = lower email == address

-- an active customer of the organization with this address, given in lower case
abbrev pub is_active_at : (String → String) → ℕ → String → Customer → Bool
is_active_at lower org address c =
    (c.organization_id == org) && has_address lower c.email address && is_none c.archived_at

abbrev pub is_excluded : Option ℕ → Customer → Bool
is_excluded none c = false
is_excluded (some id) c = c.id == id

unfoldable pub assert_email_available :
    (lower : String → String) (org : ℕ) (email : String) (exclude : Option ℕ) → Action Unit
assert_email_available lower org email exclude = do
  duplicate ← gets (λ w.
      any (λ c. is_active_at lower org (lower email) c && not (is_excluded exclude c)) w.customers)
  reject duplicate (conflict "An active customer with this email already exists")

-- `if (email) await this.assertEmailAvailable(…)`
unfoldable pub assert_if_given :
    (lower : String → String) (org : ℕ) → Option String → (exclude : Option ℕ) → Action Unit
unfolding assert_email_available
assert_if_given lower org none exclude = pure tt
assert_if_given lower org (some email) exclude =
    if email == "" then pure tt else assert_email_available lower org email exclude

abbrev pub new_customer : ℕ → CreateCustomerInput → ℕ → ℕ → Customer
new_customer org input id now = record {
  id = id;
  organization_id = org;
  name = input.name;
  email = input.email;
  phone = input.phone;
  company = input.company;
  notes = input.notes;
  archived_at = none;
  created_at = now;
  updated_at = now;
}

unfoldable pub create :
    (lower : String → String) (others : State → State) (tenant : TenantContext)
    (input : CreateCustomerInput) (id now : ℕ)
    → Action Customer
unfolding assert_if_given record_for_tenant
create lower others tenant input id now = do
  assert_if_given lower tenant.organization_id input.email none
  modify others
  transaction (do
    modify (λ w. record w {
      customers = new_customer tenant.organization_id input id now ∷ w.customers;
    })
    record_for_tenant tenant Schema.customer_created Schema.customer id [] now
    pure (new_customer tenant.organization_id input id now))

unfoldable pub require_customer : ℕ → ℕ → Action Customer
require_customer org id = do
  found ← gets (λ w. find_first (is_customer org id) w.customers)
  or_throw found (not_found "Customer not found")

-- a transaction that updates one customer by its id and audits that
unfoldable pub write_customer :
    TenantContext → ℕ → (Customer → Customer) → AuditAction → Metadata → (now : ℕ) → Action Customer
unfolding record_for_tenant
write_customer tenant id f action metadata now = transaction (do
  found ← gets (λ w. find_first (λ c. c.id == id) w.customers)
  current ← or_throw found (unexpected "P2025")
  modify (λ w. record w { customers = update_many (λ c. c.id == id) f w.customers })
  record_for_tenant tenant action Schema.customer id metadata now
  pure (f current))

abbrev pub with_changes : UpdateCustomerInput → ℕ → Customer → Customer
with_changes input now c = record c {
  name = or_else input.name c.name;
  email = or_else input.email c.email;
  phone = or_else input.phone c.phone;
  company = or_else input.company c.company;
  notes = or_else input.notes c.notes;
  updated_at = now;
}

abbrev pub field_given {ℓ} : {A : Type ℓ} → Option A → String → List String → List String
field_given none name names = names
field_given (some a) name names = name ∷ names

abbrev pub provided_fields : UpdateCustomerInput → List String
provided_fields input = field_given input.name "name" (
    field_given input.email "email" (
      field_given input.phone "phone"
        (field_given input.company "company" (field_given input.notes "notes" []))))

-- `typeof input.email === 'string'`
unfoldable pub assert_new_email :
    (lower : String → String) (org : ℕ) → Option (Option String) → (id : ℕ) → Action Unit
unfolding assert_email_available
assert_new_email lower org (some (some email)) id = assert_email_available lower org email (some id)
assert_new_email lower org _ id = pure tt

unfoldable pub update :
    (lower : String → String) (others : State → State) (tenant : TenantContext) (customer_id : ℕ)
    (input : UpdateCustomerInput) (now : ℕ)
    → Action Customer
unfolding require_customer assert_new_email write_customer
update lower others tenant customer_id input now = do
  reject (length (provided_fields input) == 0)
      (bad_request "At least one customer field must be provided")
  customer ← require_customer tenant.organization_id customer_id
  reject (not (is_none customer.archived_at)) (conflict "Archived customers cannot be updated")
  assert_new_email lower tenant.organization_id input.email customer.id
  modify others
  write_customer tenant customer.id (with_changes input now) Schema.customer_updated
      (("changedFields", Schema.texts (provided_fields input)) ∷ []) now

abbrev pub archived : ℕ → Customer → Customer
archived now c = record c { archived_at = some now; updated_at = now }

unfoldable pub archive :
    (others : State → State) (tenant : TenantContext) (customer_id now : ℕ) → Action Customer
unfolding require_customer write_customer
archive others tenant customer_id now = do
  customer ← require_customer tenant.organization_id customer_id
  modify others
  if not (is_none customer.archived_at)
      then require_customer tenant.organization_id customer.id
      else write_customer tenant customer.id (archived now) Schema.customer_archived [] now

abbrev pub restored : ℕ → Customer → Customer
restored now c = record c { archived_at = none; updated_at = now }

unfoldable pub restore :
    (lower : String → String) (others : State → State) (tenant : TenantContext)
    (customer_id now : ℕ)
    → Action Customer
unfolding require_customer assert_if_given write_customer
restore lower others tenant customer_id now = do
  customer ← require_customer tenant.organization_id customer_id
  if is_none customer.archived_at
      then (do modify others; require_customer tenant.organization_id customer.id)
      else (do
        assert_if_given lower tenant.organization_id customer.email (some customer.id)
        modify others
        write_customer tenant customer.id (restored now) Schema.customer_restored [] now)
