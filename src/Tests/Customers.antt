-- ===== src/Tests/Customers.antt =====
-- The addresses of customers.
use opsdesk.Base.{count, ℕ, ◌≤◌, ◌≡◌, refl, Option, none, some, [], ◌∷◌, arith}
use opsdesk.Schema.{Customer}
use opsdesk.State.{State}
use opsdesk.Tests.Sample.{workspace, as_tenant, cat}
use opsdesk.Customers
use opsdesk.Customers.{
  UpdateCustomerInput, CreateCustomerInput, is_active_at, assert_if_given, assert_email_available,
}
use opsdesk.Customers.Addresses.{create_customer_address}

abbrev kim : ℕ → Option ℕ → Customer
kim id archived_at = record {
  id = id;
  organization_id = 1;
  name = "Kim";
  email = some "kim@example.com";
  phone = none;
  company = none;
  notes = none;
  archived_at = archived_at;
  created_at = 0;
  updated_at = 0;
}

abbrev kim_again : CreateCustomerInput
kim_again = record {
  name = "Kim B";
  email = some "kim@example.com";
  phone = none;
  company = none;
  notes = none;
}

abbrev two_kims : State
two_kims = record workspace { customers = kim 2 (some 3) ∷ kim 1 none ∷ [] }

one_kim : count (is_active_at (λ s. s) 1 "kim@example.com") two_kims.customers ≤ 1
unfolding count
one_kim = omega arith

create_customer_address_example :
    count
      (is_active_at (λ s. s) 1 "kim@example.com")
      (Customers.create (λ s. s) (λ s. s) (as_tenant cat) kim_again 3 7 two_kims).1.customers
    ≤ 1
create_customer_address_example =
    create_customer_address (λ s. s) (as_tenant cat) kim_again 3 7 two_kims 1 "kim@example.com" refl
      one_kim

abbrev no_phone : UpdateCustomerInput
no_phone = record { name = none; email = none; phone = some none; company = none; notes = none }

-- Two creations at the same time both pass the check, and then two active customers share an
-- address.
abbrev first_creation : State → State
first_creation w = (Customers.create (λ s. s) (λ s. s) (as_tenant cat) kim_again 4 7 w).1

raced :
    count
      (is_active_at (λ s. s) 1 "kim@example.com")
      (Customers.create (λ s. s) first_creation (as_tenant cat) kim_again 5 7 workspace).1.customers
    ≡ 2
unfolding count Customers.create assert_if_given assert_email_available
raced = refl
