-- ===== src/Customers/Addresses.antt =====
-- The addresses of the active customers: where nothing interferes, no two share one.
use opsdesk.Base.{
  nat_beq_iff, Bool-cases, Option-cases, ◌==◌, find_first, count, update_many, any, All,
  find_first_holds, All-intro, All-map, Distinct, Distinct-find_first, update_many_none, is_none,
  Failure, conflict, ok, err, ℕ, ◌≤◌, String, ◌≡◌, refl, sym, subst, ◌≢◌, ◌⊎◌, inl, inr, Bool, true,
  false, not, ◌&&◌, Option, none, some, List, [], ◌∷◌, arith, nat_eq, option_eq, string_eq,
}
use native.Mathlib.Nat.{le_trans}
use opsdesk.Schema.{AuditAction}
use opsdesk.Schema.{Customer}
use opsdesk.State.{State, TenantContext}
use opsdesk.Customers.{
  create, CreateCustomerInput, new_customer, restore, restored, write_customer, require_customer,
  is_customer, is_active_at, has_address, is_excluded, assert_email_available, assert_if_given,
  CreateCustomerInput, new_customer,
}
use opsdesk.Audit.{Metadata, record_for_tenant}

-- rows other than the excluded ones
none_counted :
    (p r : Customer → Bool) (xs : List Customer)
    → All (λ x. r x ≡ false) xs
    → any (λ c. p c && not (r c)) xs ≡ false
    → count p xs ≡ 0
unfolding count
none_counted p r [] off h = refl
none_counted p r (x ∷ xs) off h = ground (arith, h, off.0, none_counted p r xs off.1)

-- an update under a key that holds the only matching row
count_one_key :
    (p : Customer → Bool) (k : ℕ) (f : Customer → Customer) (xs : List Customer)
    → Distinct (λ c. c.id) xs
    → any (λ c. p c && not (c.id == k)) xs ≡ false
    → count p (update_many (λ c. c.id == k) f xs) ≤ 1
unfolding count update_many
count_one_key p k f [] d h = omega arith
count_one_key p k f (x ∷ xs) d h = elim (Bool-cases (x.id == k)) [
  | inl e ↦
      let others_key : All (λ y. (y.id == k) ≡ false) xs =
        All-map (λ y. y.id ≢ x.id) (λ y. (y.id == k) ≡ false) xs
          (λ y apart. ground (arith, apart, e)) d.0 in
      let rest : any (λ c. p c && not (c.id == k)) xs ≡ false = ground (arith, h, e) in
      rw
        (
          e,
          update_many_none (λ c. c.id == k) f xs others_key,
          none_counted p (λ c. c.id == k) xs others_key rest,
        )
        (ground arith)
  | inr e ↦ rw e (ground (arith, h, e, count_one_key p k f xs d.1))
]

count_update_le :
    (p q : Customer → Bool) (f : Customer → Customer) (xs : List Customer)
    → All (λ x. q x ≡ true → p (f x) ≡ true → p x ≡ true) xs
    → count p (update_many q f xs) ≤ count p xs
unfolding count update_many
count_update_le p q f [] a = omega arith
count_update_le p q f (x ∷ xs) a = ground (arith, a.0, count_update_le p q f xs a.1)

-- What a check that passes says about an address other than the empty one.
abbrev Free : (String → String) → ℕ → Option String → Option ℕ → State → Type 0
Free lower org email exclude w =
    (address : String)
    → (lower "" == address) ≡ false
    → has_address lower email address ≡ true
    → any (λ c. is_active_at lower org address c && not (is_excluded exclude c)) w.customers ≡ false

assert_cases :
    (lower : String → String) (org : ℕ) (email : Option String) (exclude : Option ℕ) (w : State)
    → ((e : Failure) × (assert_if_given lower org email exclude w ≡ (err e, w)))
      ⊎ (Free lower org email exclude w × (assert_if_given lower org email exclude w ≡ (ok tt, w)))
unfolding assert_if_given assert_email_available
assert_cases lower org none exclude w = inr (λ a n h. absurd (ground (arith, h)), refl)
assert_cases lower org (some email) exclude w = elim (Bool-cases (email == "")) [
  | inl q ↦
      let is_empty : email ≡ "" = (string_eq.beq_iff email "").0 q in
      inr (λ a n h. absurd (ground (arith, n, subst (λ s. (lower s == a) ≡ true) is_empty h)), rw q)
  | inr q ↦
      elim (Bool-cases (
        any (λ c. is_active_at lower org (lower email) c && not (is_excluded exclude c))
          w.customers)) [
            | inl d ↦ inl (conflict "An active customer with this email already exists", rw (q, d))
            | inr d ↦ inr (
              λ a n h.
                  subst
                    (λ s.
                      any (λ c. is_active_at lower org s c && not (is_excluded exclude c))
                        w.customers
                      ≡ false)
                    ((string_eq.beq_iff (lower email) a).0 h) d,
              rw (q, d),
            )
          ]
]

-- Creating a customer keeps every address but the empty one from having two active customers of an
-- organization, where nothing interferes.
pub create_customer_address :
    (lower : String → String) (tenant : TenantContext) (input : CreateCustomerInput) (id now : ℕ)
    (w : State) (org : ℕ) (address : String)
    → (lower "" == address) ≡ false
    → count (is_active_at lower org address) w.customers ≤ 1
    → count
        (is_active_at lower org address)
        (create lower (λ s. s) tenant input id now w).1.customers
      ≤ 1
unfolding create record_for_tenant count
create_customer_address lower tenant input id now w org address full h =
    elim (assert_cases lower tenant.organization_id input.email none w) [
      | inl (e, c) ↦ rw c h
      | inr (free, c) ↦
          rw c
            (elim (Bool-cases
              (is_active_at lower org address (new_customer tenant.organization_id input id now))) [
                | inr n ↦ rw n h
                | inl n ↦
                    let home : tenant.organization_id ≡ org = ground (arith, n) in
                    let none_yet : count (is_active_at lower org address) w.customers ≡ 0 =
                      subst (λ o. count (is_active_at lower o address) w.customers ≡ 0) home
                        (none_counted (is_active_at lower tenant.organization_id address)
                          (is_excluded none) w.customers (All-intro _ w.customers (λ x. refl))
                          (free address full (ground (arith, n)))) in
                    rw (n, none_yet) (omega arith)
              ])
    ]

module _ (lower : String → String) (tenant : TenantContext) (org : ℕ) (address : String)
    (w : State) where
  abbrev pub holders : State → ℕ
  holders v = count (is_active_at lower org address) v.customers

  -- a write that makes no new holder, or whose customer is the only one
  pub write_customer-address :
      (k : ℕ) (f : Customer → Customer) (action : AuditAction) (metadata : Metadata) (now : ℕ)
      → Distinct (λ c. c.id) w.customers
      → holders w ≤ 1
      → (any (λ c. is_active_at lower org address c && not (c.id == k)) w.customers ≡ false)
        ⊎ All
            (λ x.
              (x.id == k) ≡ true
              → is_active_at lower org address (f x) ≡ true
              → is_active_at lower org address x ≡ true)
            w.customers
      → holders (write_customer tenant k f action metadata now w).1 ≤ 1
  unfolding write_customer record_for_tenant
  write_customer-address k f action metadata now d h why =
      elim (Option-cases (find_first (λ c. c.id == k) w.customers)) [
        | inl e ↦ rw e h
        | inr (c, e) ↦ rw e (elim why [
          | inl only ↦ count_one_key (is_active_at lower org address) k f w.customers d only
          | inr no_new ↦
              le_trans
                (count_update_le (is_active_at lower org address) (λ x. x.id == k) f w.customers
                  no_new)
                h
        ])
      ]

  -- rows under the key of a customer
  pub same_row :
      (customer_id : ℕ) (P : Customer → Type 0) {c : Customer}
      → Distinct (λ x. x.id) w.customers
      → find_first (is_customer tenant.organization_id customer_id) w.customers ≡ some c
      → P c
      → All (λ x. (x.id == c.id) ≡ true → P x) w.customers
  same_row customer_id P {c} d f holds =
      All-map (λ x. x.id ≡ c.id → x ≡ c) (λ x. (x.id == c.id) ≡ true → P x) w.customers
        (λ x only same. subst P (sym (only ((nat_beq_iff x.id c.id).0 same))) holds)
        (Distinct-find_first (λ x. x.id) _ w.customers d f)

  restored_why :
      (customer_id now : ℕ) {c : Customer}
      → (lower "" == address) ≡ false
      → Distinct (λ x. x.id) w.customers
      → find_first (is_customer tenant.organization_id customer_id) w.customers ≡ some c
      → Free lower tenant.organization_id c.email (some c.id) w
      → (any (λ x. is_active_at lower org address x && not (x.id == c.id)) w.customers ≡ false)
        ⊎ All
            (λ x.
              (x.id == c.id) ≡ true
              → is_active_at lower org address (restored now x) ≡ true
              → is_active_at lower org address x ≡ true)
            w.customers
  restored_why customer_id now {c} full d f free =
      elim (Bool-cases (is_active_at lower org address (restored now c))) [
        | inr n ↦ inr (
            same_row customer_id
              (λ x.
                is_active_at lower org address (restored now x) ≡ true
                → is_active_at lower org address x ≡ true)
              d f (λ y. absurd (ground (arith, y, n))))
        | inl y ↦
            let own : c.organization_id ≡ tenant.organization_id = ground (
              arith,
              find_first_holds (is_customer tenant.organization_id customer_id) w.customers f,
            ) in
            let home : tenant.organization_id ≡ org = ground (arith, y, own) in
            inl (
              subst
                (λ o.
                  any (λ x. is_active_at lower o address x && not (x.id == c.id)) w.customers
                  ≡ false)
                home (free address full (ground (arith, y))))
      ]

  -- Restoring a customer keeps every address but the empty one from having two active customers of
  -- an organization, where nothing interferes and ids are unique.
  pub restore_customer_address :
      (customer_id now : ℕ)
      → (lower "" == address) ≡ false
      → Distinct (λ c. c.id) w.customers
      → count (is_active_at lower org address) w.customers ≤ 1
      → count
          (is_active_at lower org address)
          (restore lower (λ s. s) tenant customer_id now w).1.customers
        ≤ 1
  unfolding restore require_customer
  restore_customer_address customer_id now full d h =
      elim (Option-cases
        (find_first (is_customer tenant.organization_id customer_id) w.customers)) [
          | inl f ↦ rw f h
          | inr (c, f) ↦ elim (Bool-cases (is_none c.archived_at)) [
            | inl a ↦
                elim (Option-cases
                  (find_first (is_customer tenant.organization_id c.id) w.customers)) [
                    | inl e ↦ rw (f, a, e) h
                    | inr (x, e) ↦ rw (f, a, e) h
                  ]
            | inr a ↦ elim (assert_cases lower tenant.organization_id c.email (some c.id) w) [
              | inl (e, k) ↦ rw (f, a, k) h
              | inr (free, k) ↦
                  rw (f, a, k)
                    (write_customer-address c.id (restored now) _ _ now d h
                      (restored_why customer_id now full d f free))
            ]
          ]
        ]
