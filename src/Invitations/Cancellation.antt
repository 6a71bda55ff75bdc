-- ===== src/Invitations/Cancellation.antt =====
-- Accepted and canceled exclude each other, as long as a cancellation is not overtaken.
use opsdesk.Base.{
  Bool-cases, Option-cases, ◌==◌, find_first, update_many, All, All-update_many, Distinct,
  Distinct-find_first, is_none, ℕ, String, ◌≡◌, refl, sym, subst, ◌⊎◌, inl, inr, true, not, none,
  List, [], ◌∷◌, arith, string_eq, option_eq, nat_eq,
}
use opsdesk.Enums.{Role, role_eq}
use opsdesk.Schema.{Invitation}
use opsdesk.State.{State, TenantContext}
use opsdesk.Audit.{record_for_tenant}
use opsdesk.Invitations.{
  accept, cancel, create, may_claim, with_acceptance, with_cancellation, write_cancellation,
  in_organization, record_acceptance,
}
use opsdesk.Invitations.Acceptance.{accept_outcome}
use opsdesk.Invitations.Issuing.{create_outcome, role_check}

-- An invitation is not both accepted and canceled.
abbrev pub Exclusive : Invitation → Type 0
Exclusive i = (i.accepted_at ≡ none) ⊎ (i.canceled_at ≡ none)

claim_keeps :
    (id user_id now : ℕ) (x : Invitation)
    → may_claim id now x ≡ true
    → Exclusive x
    → Exclusive (with_acceptance user_id now x)
claim_keeps id user_id now x h e = inr (ground (arith, h))

-- An acceptance keeps every invitation from being both accepted and canceled.
pub accept-Exclusive :
    (hash trim lower : String → String) (user_id : ℕ) (email token : String) (membership_id now : ℕ)
    (w : State)
    → All Exclusive w.invitations
    → All Exclusive (accept hash trim lower user_id email token membership_id now w).1.invitations
unfolding record_acceptance
accept-Exclusive hash trim lower user_id email token membership_id now w a =
    elim (accept_outcome hash trim lower user_id email token membership_id now w) [
      | inl (e, r) ↦ rw r a
      | inr (i, c) ↦ rw c.result (
          All-update_many Exclusive (may_claim i.id now) (with_acceptance user_id now) w.invitations
            (claim_keeps i.id user_id now) a)
    ]

pub create-Exclusive :
    (hash trim lower : String → String) (actor : TenantContext) (email : String) (role : Role)
    (token : String) (id now : ℕ) (w : State)
    → All Exclusive w.invitations
    → All Exclusive (create hash trim lower actor email role token id now w).1.invitations
create-Exclusive hash trim lower actor email role token id now w a =
    elim (create_outcome hash trim lower actor email role token id now w) [
      | inl (e, r) ↦ rw r a
      | inr c ↦ rw c.invitations (inl refl, a)
    ]

module _ (actor : TenantContext) (i : Invitation) (now : ℕ) (w : State) where
  cancel_row :
      i.accepted_at ≡ none
      → (x : Invitation) → (x.id == i.id) ≡ true
      → (x.id ≡ i.id → x ≡ i) × Exclusive x
      → (x.id ≡ i.id → x ≡ i) × Exclusive (with_cancellation now x)
  cancel_row open_yet x h (only, e) =
      (only, inl (subst (λ r. r.accepted_at ≡ none) (sym (only (ground (arith, h)))) open_yet))

  canceled_rows :
      i.accepted_at ≡ none
      → (xs : List Invitation) → All (λ x. (x.id ≡ i.id → x ≡ i) × Exclusive x) xs
      → All Exclusive (update_many (λ x. x.id == i.id) (with_cancellation now) xs)
  unfolding update_many
  canceled_rows open_yet [] a = tt
  canceled_rows open_yet (x ∷ xs) a = elim (Bool-cases (x.id == i.id)) [
    | inl e ↦ rw e ((cancel_row open_yet x e a.0).1, canceled_rows open_yet xs a.1)
    | inr e ↦ rw e (a.0.1, canceled_rows open_yet xs a.1)
  ]

  write_cancellation-Exclusive :
      i.accepted_at ≡ none
      → All (λ x. (x.id ≡ i.id → x ≡ i) × Exclusive x) w.invitations
      → All Exclusive w.invitations
      → All Exclusive (write_cancellation actor i now w).1.invitations
  unfolding write_cancellation record_for_tenant
  write_cancellation-Exclusive open_yet both a =
      elim (Option-cases (find_first (λ x. x.id == i.id) w.invitations)) [
        | inl f ↦ rw f a
        | inr (cur, f) ↦ rw f (canceled_rows open_yet w.invitations both)
      ]

All-both :
    {A : Type 0} (P Q : A → Type 0) (xs : List A) → All P xs → All Q xs → All (λ x. P x × Q x) xs
All-both P Q [] p q = tt
All-both P Q (x ∷ xs) p q = ((p.0, q.0), All-both P Q xs p.1 q.1)

-- A cancellation that nothing interrupts keeps every invitation from being both accepted and
-- canceled, where ids are unique.
pub cancel-Exclusive :
    (actor : TenantContext) (invitation_id now : ℕ) (w : State)
    → Distinct (λ i. i.id) w.invitations
    → All Exclusive w.invitations
    → All Exclusive (cancel (λ s. s) actor invitation_id now w).1.invitations
unfolding cancel
cancel-Exclusive actor invitation_id now w d a =
    elim (Option-cases
      (find_first (in_organization actor.organization_id invitation_id) w.invitations)) [
        | inl f ↦ rw f a
        | inr (i, f) ↦ elim (role_check actor.role i.role w) [
          | inl (e, c) ↦ rw (f, c) a
          | inr (m, c) ↦ elim (Bool-cases (not (is_none i.accepted_at))) [
            | inl t ↦ rw (f, c, t) a
            | inr t ↦ elim (Bool-cases (not (is_none i.canceled_at))) [
              | inl k ↦ rw (f, c, t, k) a
              | inr k ↦
                  rw (f, c, t, k)
                    (write_cancellation-Exclusive actor i now w (ground (arith, t))
                      (All-both _ _ w.invitations
                        (Distinct-find_first (λ x. x.id) _ w.invitations d f) a)
                      a)
            ]
          ]
        ]
      ]
