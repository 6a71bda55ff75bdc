-- ===== src/Invitations/Issuing.antt =====
-- Who may invite whom, and how many invitations an address holds.
use opsdesk.Base.{
  Bool-cases, ◌==◌, count, any, Failure, conflict, unique_violation, ok, err, ℕ, ◌≤◌, String, ◌≡◌,
  refl, subst, ◌≢◌, ◌⊎◌, inl, inr, Bool, false, List, [], ◌∷◌, arith, string_eq, option_eq, nat_eq,
}
use opsdesk.Enums.{Role, role_eq}
use opsdesk.Schema.{Invitation}
use opsdesk.State.{State, TenantContext}
use opsdesk.Audit.{record_for_tenant}
use opsdesk.Invitations.{
  create, assert_role_allowed, is_pending_for, is_member_by_email, new_invitation, get_status,
  InvitationStatus,
}

-- Owners invite into every role, admins only agents and viewers, nobody else anybody.
abbrev pub MayInvite : Role → Role → Type 0
MayInvite Role.owner role = Unit
MayInvite Role.admin role = (role ≢ Role.owner) × (role ≢ Role.admin)
MayInvite _ role = ⊥

pub role_check :
    (actor role : Role) (w : State)
    → ((e : Failure) × (assert_role_allowed actor role w ≡ (err e, w)))
      ⊎ (MayInvite actor role × (assert_role_allowed actor role w ≡ (ok tt, w)))
unfolding assert_role_allowed
role_check Role.owner role w = inr (tt, refl)
role_check Role.admin Role.owner w = inl (_, refl)
role_check Role.admin Role.admin w = inl (_, refl)
role_check Role.admin Role.agent w =
    inr ((λ e. absurd (ground (arith, e)), λ e. absurd (ground (arith, e))), refl)
role_check Role.admin Role.viewer w =
    inr ((λ e. absurd (ground (arith, e)), λ e. absurd (ground (arith, e))), refl)
role_check Role.agent role w = inl (_, refl)
role_check Role.viewer role w = inl (_, refl)

none_then_one : (q : Invitation → Bool) (xs : List Invitation) → any q xs ≡ false → count q xs ≡ 0
unfolding count
none_then_one q [] h = refl
none_then_one q (x ∷ xs) h = ground (arith, h, none_then_one q xs)

module _ (hash trim lower : String → String) (actor : TenantContext) (email : String) (role : Role)
    (token : String) (id now : ℕ) (w : State) where
  abbrev pub issued : Invitation
  issued = new_invitation actor (lower (trim email)) role (hash token) id now

  abbrev invited : Bool
  invited = any (is_pending_for actor.organization_id (lower (trim email)) now) w.invitations

  abbrev taken : Bool
  taken = any (λ i. i.token_hash == hash token) w.invitations

  pub record Issued : Type 0 where
    pub may : MayInvite actor.role role
    pub no_member : is_member_by_email (lower (trim email)) actor.organization_id w ≡ false
    pub none_pending : invited ≡ false
    pub fresh_token : taken ≡ false
    pub returned :
        (create hash trim lower actor email role token id now w).0
        ≡ ok (issued, InvitationStatus.pending, token)
    pub invitations :
        (create hash trim lower actor email role token id now w).1.invitations
        ≡ issued ∷ w.invitations
    pub memberships :
        (create hash trim lower actor email role token id now w).1.memberships ≡ w.memberships

  starts_pending : get_status issued now ≡ InvitationStatus.pending
  unfolding get_status
  starts_pending = ground arith

  -- A call throws and writes nothing, or it returns. Then the actor may invite into the role, no
  -- user of the address is a member, no invitation of the organization to it is pending, the token
  -- is unused, and one pending invitation is added.
  pub create_outcome :
      ((e : Failure) × (create hash trim lower actor email role token id now w ≡ (err e, w)))
      ⊎ Issued
  unfolding create record_for_tenant
  create_outcome = elim (role_check actor.role role w) [
    | inl (e, c) ↦ inl (e, rw c)
    | inr (m, c) ↦
        elim (Bool-cases (is_member_by_email (lower (trim email)) actor.organization_id w)) [
          | inl j ↦ inl (conflict "User is already a member of this organization", rw (c, j))
          | inr j ↦ elim (Bool-cases invited) [
            | inl p ↦
                inl (conflict "A pending invitation already exists for this email", rw (c, j, p))
            | inr p ↦ elim (Bool-cases taken) [
              | inl t ↦ inl (unique_violation, rw (c, j, p, t))
              | inr t ↦ inr (record {
                may = m;
                no_member = j;
                none_pending = p;
                fresh_token = t;
                returned = rw (c, j, p, t, starts_pending);
                invitations = rw (c, j, p, t);
                memberships = rw (c, j, p, t);
              })
            ]
          ]
        ]
  ]

  -- At no organization does an address hold two pending invitations after a call if it did not
  -- before.
  pub create_one_pending :
      (org : ℕ) (address : String)
      → count (is_pending_for org address now) w.invitations ≤ 1
      → count
          (is_pending_for org address now)
          (create hash trim lower actor email role token id now w).1.invitations
        ≤ 1
  unfolding count
  create_one_pending org address h = elim create_outcome [
    | inl (e, r) ↦ rw r h
    | inr c ↦ rw c.invitations (elim (Bool-cases (is_pending_for org address now issued)) [
      | inr other_key ↦ rw other_key h
      | inl own ↦
          let home : actor.organization_id ≡ org = ground (arith, own) in
          let to : lower (trim email) ≡ address =
            (string_eq.beq_iff (lower (trim email)) address).0 (ground (arith, own)) in
          let none_yet : count (is_pending_for org address now) w.invitations ≡ 0 =
            subst (λ o. count (is_pending_for o address now) w.invitations ≡ 0) home
              (subst (λ a. count (is_pending_for actor.organization_id a now) w.invitations ≡ 0) to
                (none_then_one _ w.invitations c.none_pending)) in
          rw (own, none_yet) (omega arith)
    ])
  ]
