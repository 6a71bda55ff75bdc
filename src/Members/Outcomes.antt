-- ===== src/Members/Outcomes.antt =====
-- The ways in which a call of `updateRole` can end.
use opsdesk.Base.{
  leb, Bool-cases, Option-cases, ◌==◌, ◌!=◌, find_first, count, update_many, Failure, not_found,
  conflict, ok, err, ℕ, ◌≤◌, ◌≡◌, refl, ◌≢◌, ◌⊎◌, inl, inr, Bool, false, ◌&&◌, some, arith, nat_eq,
}
use opsdesk.Enums.{Role, role_eq}
use opsdesk.Schema.{Membership}
use opsdesk.State.{TenantContext, State}
use opsdesk.Members.{
  update_role, owns, is_privileged, assert_role_change_allowed, assert_owner_remains, with_role,
  record_role_change,
}

-- Who may change whom: owners anybody, admins only agents and viewers, and only into those.
abbrev pub MayChange : Role → Role → Role → Type 0
MayChange Role.owner target_role new_role = Unit
MayChange Role.admin target_role new_role =
    (is_privileged target_role ≡ false) × (is_privileged new_role ≡ false)
MayChange _ target_role new_role = ⊥

rank_check :
    (actor target new : Role) (w : State)
    → (MayChange actor target new × (assert_role_change_allowed actor target new w ≡ (ok tt, w)))
      ⊎ ((e : Failure) × (assert_role_change_allowed actor target new w ≡ (err e, w)))
unfolding assert_role_change_allowed
rank_check Role.owner target new w = inl (tt, refl)
rank_check Role.admin Role.owner new w = inr (_, refl)
rank_check Role.admin Role.admin new w = inr (_, refl)
rank_check Role.admin Role.agent Role.owner w = inr (_, refl)
rank_check Role.admin Role.agent Role.admin w = inr (_, refl)
rank_check Role.admin Role.agent _ w = inl ((refl, refl), refl)
rank_check Role.admin Role.viewer Role.owner w = inr (_, refl)
rank_check Role.admin Role.viewer Role.admin w = inr (_, refl)
rank_check Role.admin Role.viewer _ w = inl ((refl, refl), refl)
rank_check Role.agent target new w = inr (_, refl)
rank_check Role.viewer target new w = inr (_, refl)

-- the last owner is not demoted
abbrev pub KeepsOwner : ℕ → Role → Role → State → Type 0
KeepsOwner org target new w =
    target ≡ Role.owner → new ≢ Role.owner → 2 ≤ count (owns org) w.memberships

owner_check :
    (org : ℕ) (target new : Role) (w : State)
    → (KeepsOwner org target new w × (assert_owner_remains org target new w ≡ (ok tt, w)))
      ⊎ ((e : Failure) × (assert_owner_remains org target new w ≡ (err e, w)))
unfolding assert_owner_remains
owner_check org target new w = elim (Bool-cases ((target == Role.owner) && (new != Role.owner))) [
  | inl demotes ↦ elim (Bool-cases (leb (count (owns org) w.memberships) 1)) [
    | inl last ↦ inr (conflict "Organization must have at least one owner", rw (demotes, last))
    | inr more ↦ inl (λ _ _. ground arith, rw (demotes, more))
  ]
  | inr stays ↦ inl (λ t n. absurd (ground (arith, t, n)), rw stays)
]

-- the audit row is written without an error, and writes nothing else
role_change_row :
    (actor : TenantContext) (target : Membership) (new : Role) (now : ℕ) (w : State)
    → ((record_role_change actor target new now w).0 ≡ ok tt)
      × ((record_role_change actor target new now w).1.memberships ≡ w.memberships)
      × ((record_role_change actor target new now w).1.organizations ≡ w.organizations)
unfolding record_role_change
role_change_row actor target new now w = elim (Bool-cases (target.role != new)) [
  | inl e ↦ (rw e, rw e, rw e)
  | inr e ↦ (rw e, rw e, rw e)
]

abbrev pub is_target : TenantContext → ℕ → Membership → Bool
is_target actor membership_id m =
    (m.id == membership_id) && (m.organization_id == actor.organization_id)

module _ (actor : TenantContext) (membership_id : ℕ) (new_role : Role) (now : ℕ) (w : State) where
  abbrev pub after_change : Membership → State
  after_change target =
      (record_role_change actor target new_role now (record w {
        memberships = update_many (λ m. m.id == target.id) (with_role new_role now) w.memberships;
      })).1

  -- Either the call throws and writes nothing, or it found a member of the actor's organization
  -- whose change the ranks and the owner count allow, and gave that member the new role.
  pub record Changed (target : Membership) : Type 0 where
    pub found : find_first (is_target actor membership_id) w.memberships ≡ some target
    pub allowed : MayChange actor.role target.role new_role
    pub keeps_owner : KeepsOwner actor.organization_id target.role new_role w
    pub result :
        update_role actor membership_id new_role now w
        ≡ (ok (with_role new_role now target), after_change target)

  pub update_role_cases :
      ((e : Failure) × (update_role actor membership_id new_role now w ≡ (err e, w)))
      ⊎ ((target : Membership) × Changed target)
  unfolding update_role
  update_role_cases =
      elim (Option-cases (find_first (is_target actor membership_id) w.memberships)) [
        | inl e ↦ inl (not_found "Member not found", rw e)
        | inr (t, e) ↦ elim (rank_check actor.role t.role new_role w) [
          | inr (x, r) ↦ inl (x, rw (e, r))
          | inl (may, r) ↦ elim (owner_check actor.organization_id t.role new_role w) [
            | inr (x, o) ↦ inl (x, rw (e, r, o))
            | inl (keeps, o) ↦ inr (
              t,
              record {
                found = e;
                allowed = may;
                keeps_owner = keeps;
                result = rw (e, r, o, (role_change_row actor t new_role now _).0);
              },
            )
          ]
        ]
      ]

  pub after_change-memberships :
      (target : Membership)
      → (after_change target).memberships
        ≡ update_many (λ m. m.id == target.id) (with_role new_role now) w.memberships
  after_change-memberships target = (role_change_row actor target new_role now _).1

  pub after_change-organizations :
      (target : Membership) → (after_change target).organizations ≡ w.organizations
  after_change-organizations target = (role_change_row actor target new_role now _).2
