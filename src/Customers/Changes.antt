-- ===== src/Customers/Changes.antt =====
-- A change of a customer and the addresses of the active customers.
use opsdesk.Base.{
  Bool-cases, Option-cases, ◌==◌, length, find_first, count, any, All, find_first_holds, Distinct,
  or_else, is_none, Failure, conflict, ok, err, ℕ, ◌≤◌, String, ◌≡◌, refl, subst, ◌⊎◌, inl, inr,
  true, false, not, ◌&&◌, Option, none, some, arith, nat_eq, option_eq, string_eq,
}
use opsdesk.Schema.{Customer}
use opsdesk.State.{TenantContext, State}
use opsdesk.Customers.{
  update, UpdateCustomerInput, with_changes, provided_fields, assert_new_email,
  assert_email_available, require_customer, is_customer, is_active_at, has_address,
}
use opsdesk.Customers.Addresses.{same_row, write_customer-address}

-- What the check of a new address says; it leaves out no address.
abbrev FreeForNew : (String → String) → ℕ → Option (Option String) → ℕ → State → Type 0
FreeForNew lower org email id w =
    (address : String)
    → has_address lower (or_else email none) address ≡ true
    → any (λ c. is_active_at lower org address c && not (c.id == id)) w.customers ≡ false

new_email_cases :
    (lower : String → String) (org : ℕ) (email : Option (Option String)) (id : ℕ) (w : State)
    → ((e : Failure) × (assert_new_email lower org email id w ≡ (err e, w)))
      ⊎ (FreeForNew lower org email id w × (assert_new_email lower org email id w ≡ (ok tt, w)))
unfolding assert_new_email assert_email_available
new_email_cases lower org none id w = inr (λ a h. absurd (ground (arith, h)), refl)
new_email_cases lower org (some none) id w = inr (λ a h. absurd (ground (arith, h)), refl)
new_email_cases lower org (some (some email)) id w =
    elim (Bool-cases
      (any (λ c. is_active_at lower org (lower email) c && not (c.id == id)) w.customers)) [
        | inl d ↦ inl (conflict "An active customer with this email already exists", rw d)
        | inr d ↦ inr (
          λ a h.
              subst
                (λ s. any (λ c. is_active_at lower org s c && not (c.id == id)) w.customers ≡ false)
                ((string_eq.beq_iff (lower email) a).0 h) d,
          rw d,
        )
      ]

-- the address after a change is the old one or the new one
email_source :
    (lower : String → String) (address : String) (e : Option (Option String)) (old : Option String)
    → has_address lower (or_else e old) address ≡ true
    → (has_address lower old address ≡ true) ⊎ (has_address lower (or_else e none) address ≡ true)
email_source lower address none old h = inl h
email_source lower address (some e) old h = inr h

module _ (lower : String → String) (tenant : TenantContext) (org : ℕ) (address : String)
    (w : State) where
  changed_why :
      (customer_id now : ℕ) (input : UpdateCustomerInput) {c : Customer}
      → Distinct (λ x. x.id) w.customers
      → find_first (is_customer tenant.organization_id customer_id) w.customers ≡ some c
      → FreeForNew lower tenant.organization_id input.email c.id w
      → (any (λ x. is_active_at lower org address x && not (x.id == c.id)) w.customers ≡ false)
        ⊎ All
            (λ x.
              (x.id == c.id) ≡ true
              → is_active_at lower org address (with_changes input now x) ≡ true
              → is_active_at lower org address x ≡ true)
            w.customers
  changed_why customer_id now input {c} d f free =
      let row =
        same_row lower tenant org address w customer_id
          (λ x.
            is_active_at lower org address (with_changes input now x) ≡ true
            → is_active_at lower org address x ≡ true)
          d f in
      elim (Bool-cases (is_active_at lower org address (with_changes input now c))) [
        | inr n ↦ inr (row (λ y. absurd (ground (arith, y, n))))
        | inl y ↦ elim (email_source lower address input.email c.email (ground (arith, y))) [
          | inl old ↦ inr (row (λ _. ground (arith, y, old)))
          | inr new ↦
              let own : c.organization_id ≡ tenant.organization_id = ground (
                arith,
                find_first_holds (is_customer tenant.organization_id customer_id) w.customers f,
              ) in
              let home : tenant.organization_id ≡ org = ground (arith, y, own) in
              inl (
                subst
                  (λ o.
                    any (λ x. is_active_at lower o address x && not (x.id == c.id)) w.customers
                    ≡ false)
                  home (free address new))
        ]
      ]

  -- Changing a customer keeps every address from having two active customers of an organization,
  -- where nothing interferes and ids are unique.
  pub update_customer_address :
      (customer_id now : ℕ) (input : UpdateCustomerInput)
      → Distinct (λ c. c.id) w.customers
      → count (is_active_at lower org address) w.customers ≤ 1
      → count
          (is_active_at lower org address)
          (update lower (λ s. s) tenant customer_id input now w).1.customers
        ≤ 1
  unfolding update require_customer
  update_customer_address customer_id now input d h =
      elim (Bool-cases (length (provided_fields input) == 0)) [
        | inl p ↦ rw p h
        | inr p ↦
            elim (Option-cases
              (find_first (is_customer tenant.organization_id customer_id) w.customers)) [
                | inl f ↦ rw (p, f) h
                | inr (c, f) ↦ elim (Bool-cases (not (is_none c.archived_at))) [
                  | inl a ↦ rw (p, f, a) h
                  | inr a ↦ elim (new_email_cases lower tenant.organization_id input.email c.id w) [
                    | inl (e, k) ↦ rw (p, f, a, k) h
                    | inr (free, k) ↦
                        rw (p, f, a, k)
                          (write_customer-address lower tenant org address w c.id
                            (with_changes input now) _ _ now d h
                            (changed_why customer_id now input d f free))
                  ]
                ]
              ]
      ]
