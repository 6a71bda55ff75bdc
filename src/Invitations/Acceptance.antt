-- ===== src/Invitations/Acceptance.antt =====
-- What accepting an invitation takes and leaves: each invitation is used at most once.
use opsdesk.Base.{
  ltb, leb, Bool-cases, Option-cases, ◌==◌, ◌!=◌, find_first, count, update_many, any, is_none,
  Failure, forbidden, not_found, conflict, ok, err, ℕ, ◌<◌, String, ◌≡◌, refl, ◌⊎◌, inl, inr, Bool,
  false, not, ◌&&◌, none, some, [], ◌∷◌, arith, string_eq, option_eq, nat_eq,
}
use opsdesk.Schema
use opsdesk.Schema.{Invitation, Membership, AuditLog}
use opsdesk.State.{State}
use opsdesk.Invitations.{
  accept, check_acceptance, may_claim, belongs, get_status, InvitationStatus, record_acceptance,
}

-- the test of the token
abbrev pub has_hash : String → Invitation → Bool
has_hash h i = i.token_hash == h

status_pending :
    (i : Invitation) (now : ℕ)
    → not (is_none i.accepted_at) ≡ false
    → not (is_none i.canceled_at) ≡ false
    → leb i.expires_at now ≡ false
    → get_status i now ≡ InvitationStatus.pending
unfolding get_status
status_pending i now a c x = rw (a, c, x) refl

check_acceptance_cases :
    (lower : String → String) (email : String) (i : Invitation) (now : ℕ) (w : State)
    → ((e : Failure) × (check_acceptance lower email i now w ≡ (err e, w)))
      ⊎ ((lower i.email ≡ email)
          × (get_status i now ≡ InvitationStatus.pending)
          × (i.accepted_at ≡ none)
          × (i.canceled_at ≡ none)
          × (now < i.expires_at)
          × (check_acceptance lower email i now w ≡ (ok tt, w)))
unfolding check_acceptance
check_acceptance_cases lower email i now w = elim (Bool-cases (lower i.email != email)) [
  | inl q ↦ inl (forbidden "Invitation does not belong to the authenticated user", rw q)
  | inr q ↦ elim (Bool-cases (not (is_none i.accepted_at))) [
    | inl a ↦ inl (conflict "Invitation has already been accepted", rw (q, a))
    | inr a ↦ elim (Bool-cases (not (is_none i.canceled_at))) [
      | inl c ↦ inl (conflict "Invitation has been canceled", rw (q, a, c))
      | inr c ↦ elim (Bool-cases (leb i.expires_at now)) [
        | inl x ↦ inl (conflict "Invitation has expired", rw (q, a, c, x))
        | inr x ↦ inr (
          (string_eq.beq_iff (lower i.email) email).0 (ground (arith, q)),
          status_pending i now a c x,
          ground (arith, a),
          ground (arith, c),
          ground (arith, x),
          rw (q, a, c, x),
        )
      ]
    ]
  ]
]

module _ (hash trim lower : String → String) (user_id : ℕ) (email token : String)
    (membership_id now : ℕ) (w : State) where
  -- the member that the user becomes
  abbrev pub joined : Invitation → Membership
  joined i = record {
    id = membership_id;
    user_id = user_id;
    organization_id = i.organization_id;
    role = i.role;
    created_at = now;
    updated_at = now;
  }

  abbrev audited : Invitation → AuditLog
  audited i = record {
    organization_id = i.organization_id;
    actor_user_id = some user_id;
    actor_membership_id = some membership_id;
    actor_role = some i.role;
    action = Schema.invitation_accepted;
    entity_type = Schema.invitation;
    entity_id = some i.id;
    metadata =
        ("membershipId", Schema.key (some membership_id)) ∷ ("role", Schema.role i.role) ∷ [];
    created_at = now;
  }

  -- the state after an invitation is accepted
  abbrev pub after_accept : Invitation → State
  after_accept i = record w {
    invitations =
        update_many
          (λ j.
            (j.id == i.id)
            && ((j.accepted_at == none) && (j.canceled_at == none) && ltb now j.expires_at))
          (λ j. record j {
            accepted_at = some now;
            accepted_by_user_id = some user_id;
            updated_at = now;
          })
          w.invitations;
    memberships = joined i ∷ w.memberships;
    audit_logs = audited i ∷ w.audit_logs;
  }

  pub record Accepted (i : Invitation) : Type 0 where
    pub was_found : find_first (has_hash (hash token)) w.invitations ≡ some i
    pub same_email : lower i.email ≡ lower (trim email)
    pub was_pending : get_status i now ≡ InvitationStatus.pending
    pub not_accepted : i.accepted_at ≡ none
    pub not_canceled : i.canceled_at ≡ none
    pub not_expired : now < i.expires_at
    pub no_member : any (belongs user_id i.organization_id) w.memberships ≡ false
    pub result :
        accept hash trim lower user_id email token membership_id now w
        ≡ (ok (joined i), after_accept i)

  -- A call throws and writes nothing, or it returns. Then the token is that of an invitation to the
  -- user's address, which is pending: neither accepted nor canceled nor expired. The user was no
  -- member of its organization and becomes one with the role of the invitation, the pending rows of
  -- its id are marked as accepted by the user, and one audit row tells the membership and the role.
  pub accept_outcome :
      ((e : Failure) × (accept hash trim lower user_id email token membership_id now w
          ≡ (err e, w)))
      ⊎ ((i : Invitation) × Accepted i)
  unfolding accept record_acceptance
  accept_outcome = elim (Option-cases (find_first (has_hash (hash token)) w.invitations)) [
    | inl f ↦ inl (not_found "Invitation not found", rw f)
    | inr (i, f) ↦ elim (check_acceptance_cases lower (lower (trim email)) i now w) [
      | inl (e, c) ↦ inl (e, rw (f, c))
      | inr (s, p, free, kept, live, c) ↦
          elim (Bool-cases (any (belongs user_id i.organization_id) w.memberships)) [
            | inl j ↦ inl (conflict "User is already a member of this organization", rw (f, c, j))
            | inr j ↦ elim (Bool-cases (count (may_claim i.id now) w.invitations != 1)) [
              | inl k ↦ inl (conflict "Invitation is no longer available", rw (f, c, j, k))
              | inr k ↦ inr (
                i,
                record {
                  was_found = f;
                  same_email = s;
                  was_pending = p;
                  not_accepted = free;
                  not_canceled = kept;
                  not_expired = live;
                  no_member = j;
                  result = rw (f, c, j, k);
                },
              )
            ]
          ]
    ]
  ]
