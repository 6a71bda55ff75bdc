-- ===== src/Invitations.antt =====
-- InvitationsService of apps/api/src/invitations/invitations.service.ts. `hash` stands for the
-- SHA-256 digest, `lower` for `toLowerCase()` and `trim` for `trim()`. Creating and accepting run
-- at the serializable level, so each is one step; canceling reads first.
pub mod Acceptance
pub mod SingleUse
pub mod Issuing
pub mod Cancellation
use opsdesk.Base.{
  ltb, leb, if◌then◌else◌, ◌==◌, ◌!=◌, find_first, count, update_many, any, pure, throw, gets,
  or_throw, transaction, modify, reject, is_none, forbidden, not_found, conflict, unique_violation,
  unexpected, ℕ, ◌+◌, ◌*◌, String, Bool, true, false, not, ◌&&◌, none, some, [], ◌∷◌, ◌>>=◌, ◌>>◌,
  string_eq, nat_eq, option_eq,
}
use opsdesk.Enums.{Role, role_eq}
use opsdesk.Schema
use opsdesk.Schema.{Invitation, Membership}
use opsdesk.State.{TenantContext, State, Action}
use opsdesk.Audit.{record_for_tenant, record_audit}

abbrev pub lifetime_ms : ℕ
lifetime_ms = 7 * 24 * 60 * 60 * 1000

unfoldable pub assert_role_allowed : Role → Role → Action Unit
assert_role_allowed actor_role invitation_role =
    if actor_role == Role.owner
    then pure tt
    else if actor_role != Role.admin
    then throw (forbidden "Insufficient permissions")
    else if if invitation_role == Role.owner then true else invitation_role == Role.admin
    then throw (forbidden "Admins cannot invite owners or admins")
    else pure tt

pub data InvitationStatus : Type 0 where
  accepted canceled expired pending : InvitationStatus

unfoldable pub get_status : Invitation → ℕ → InvitationStatus
get_status i now =
    if not (is_none i.accepted_at)
    then accepted
    else if not (is_none i.canceled_at)
    then canceled
    else if leb i.expires_at now
    then expired
    else pending

-- `acceptedAt: null, canceledAt: null, expiresAt: { gt: now }`
abbrev pub is_pending : ℕ → Invitation → Bool
is_pending now i = (i.accepted_at == none) && (i.canceled_at == none) && ltb now i.expires_at

abbrev pub is_pending_for : ℕ → String → ℕ → Invitation → Bool
is_pending_for org email now i =
    (i.organization_id == org) && (i.email == email) && is_pending now i

-- the key of a membership, unique in its table
abbrev pub belongs : ℕ → ℕ → Membership → Bool
belongs user_id org m = (m.user_id == user_id) && (m.organization_id == org)

abbrev pub is_member_by_email : String → ℕ → State → Bool
is_member_by_email email org w = elim (find_first (λ u. u.email == email) w.users) [
  | none ↦ false
  | some u ↦ any (belongs u.id org) w.memberships
]

abbrev pub new_invitation :
    TenantContext → String → Role → (token_hash : String) → (id now : ℕ) → Invitation
new_invitation actor email role token_hash id now = record {
  id = id;
  organization_id = actor.organization_id;
  email = email;
  role = role;
  token_hash = token_hash;
  invited_by_user_id = actor.user_id;
  accepted_by_user_id = none;
  expires_at = now + lifetime_ms;
  accepted_at = none;
  canceled_at = none;
  created_at = now;
  updated_at = now;
}

-- The response carries the token; `token` is the random text drawn for the call.
unfoldable pub create :
    (hash trim lower : String → String) (actor : TenantContext) (email : String) (role : Role)
    (token : String) (id now : ℕ)
    → Action (Invitation × InvitationStatus × String)
unfolding assert_role_allowed record_for_tenant get_status
create hash trim lower actor email role token id now = do
  assert_role_allowed actor.role role
  let normalized = lower (trim email)
  let invitation = new_invitation actor normalized role (hash token) id now
  transaction (do
    member ← gets (is_member_by_email normalized actor.organization_id)
    reject member (conflict "User is already a member of this organization")
    invited ← gets (λ w. any (is_pending_for actor.organization_id normalized now) w.invitations)
    reject invited (conflict "A pending invitation already exists for this email")
    taken ← gets (λ w. any (λ i. i.token_hash == hash token) w.invitations)
    reject taken unique_violation
    modify (λ w. record w { invitations = invitation ∷ w.invitations })
    record_for_tenant actor Schema.invitation_created Schema.invitation id
        (("role", Schema.role role) ∷ []) now)
  pure (invitation, get_status invitation now, token)

abbrev pub in_organization : ℕ → ℕ → Invitation → Bool
in_organization org id i = (i.id == id) && (i.organization_id == org)

abbrev pub with_cancellation : ℕ → Invitation → Invitation
with_cancellation now i = record i { canceled_at = some now; updated_at = now }

-- the transaction of `cancel`: an update by the id alone
unfoldable pub write_cancellation :
    TenantContext → Invitation → ℕ → Action (Invitation × InvitationStatus)
unfolding record_for_tenant
write_cancellation actor invitation now = transaction (do
  found ← gets (λ w. find_first (λ i. i.id == invitation.id) w.invitations)
  current ← or_throw found (unexpected "P2025")
  modify (λ w. record w {
    invitations = update_many (λ i. i.id == invitation.id) (with_cancellation now) w.invitations;
  })
  record_for_tenant actor Schema.invitation_canceled Schema.invitation current.id
      (("role", Schema.role current.role) ∷ []) now
  pure (with_cancellation now current, get_status (with_cancellation now current) now))

unfoldable pub cancel :
    (others : State → State) (actor : TenantContext) (invitation_id now : ℕ)
    → Action (Invitation × InvitationStatus)
unfolding assert_role_allowed write_cancellation get_status
cancel others actor invitation_id now = do
  found ← gets (λ w. find_first (in_organization actor.organization_id invitation_id) w.invitations)
  invitation ← or_throw found (not_found "Invitation not found")
  assert_role_allowed actor.role invitation.role
  reject (not (is_none invitation.accepted_at)) (conflict "Accepted invitations cannot be canceled")
  if not (is_none invitation.canceled_at)
      then pure (invitation, get_status invitation now)
      else do modify others; write_cancellation actor invitation now

abbrev pub with_acceptance : ℕ → ℕ → Invitation → Invitation
with_acceptance user_id now i = record i {
  accepted_at = some now;
  accepted_by_user_id = some user_id;
  updated_at = now;
}

abbrev pub may_claim : ℕ → ℕ → Invitation → Bool
may_claim id now i = (i.id == id) && is_pending now i

abbrev pub new_membership : ℕ → Invitation → ℕ → ℕ → Membership
new_membership user_id i id now = record {
  id = id;
  user_id = user_id;
  organization_id = i.organization_id;
  role = i.role;
  created_at = now;
  updated_at = now;
}

-- the refusals of `accept`, in order
unfoldable pub check_acceptance :
    (lower : String → String) (email : String) → Invitation → ℕ → Action Unit
check_acceptance lower email i now = do
  reject (lower i.email != email) (forbidden "Invitation does not belong to the authenticated user")
  reject (not (is_none i.accepted_at)) (conflict "Invitation has already been accepted")
  reject (not (is_none i.canceled_at)) (conflict "Invitation has been canceled")
  reject (leb i.expires_at now) (conflict "Invitation has expired")

unfoldable pub record_acceptance : ℕ → Invitation → ℕ → ℕ → Action Unit
unfolding record_audit
record_acceptance user_id i membership_id now =
    record_audit
      (record {
        organization_id = i.organization_id;
        actor_user_id = some user_id;
        actor_membership_id = some membership_id;
        actor_role = some i.role;
        action = Schema.invitation_accepted;
        entity_type = Schema.invitation;
        entity_id = some i.id;
        metadata =
            ("membershipId", Schema.key (some membership_id)) ∷ ("role", Schema.role i.role) ∷ [];
      })
      now

unfoldable pub accept :
    (hash trim lower : String → String) (user_id : ℕ) (email token : String) (membership_id now : ℕ)
    → Action Membership
unfolding record_acceptance
accept hash trim lower user_id email token membership_id now = transaction (do
  found ← gets (λ w. find_first (λ i. i.token_hash == hash token) w.invitations)
  invitation ← or_throw found (not_found "Invitation not found")
  check_acceptance lower (lower (trim email)) invitation now
  joined ← gets (λ w. any (belongs user_id invitation.organization_id) w.memberships)
  reject joined (conflict "User is already a member of this organization")
  claimed ← gets (λ w. count (may_claim invitation.id now) w.invitations)
  modify (λ w. record w {
    invitations =
        update_many (may_claim invitation.id now) (with_acceptance user_id now) w.invitations;
  })
  reject (claimed != 1) (conflict "Invitation is no longer available")
  modify (λ w. record w {
    memberships = new_membership user_id invitation membership_id now ∷ w.memberships;
  })
  record_acceptance user_id invitation membership_id now
  pure (new_membership user_id invitation membership_id now))
