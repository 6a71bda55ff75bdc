-- ===== src/Members.antt =====
-- MembersService.updateRole of apps/api/src/members/members.service.ts. The transaction is
-- serializable, so it runs as one step.
pub mod Outcomes
pub mod Owners
use opsdesk.Base.{
  leb, if◌then◌else◌, ◌==◌, ◌!=◌, find_first, count, update_many, pure, throw, gets, or_throw,
  transaction, modify, reject, forbidden, not_found, conflict, ℕ, Bool, true, ◌&&◌, some, [], ◌∷◌,
  ◌>>=◌, ◌>>◌, nat_eq,
}
use opsdesk.Enums.{Role, role_eq}
use opsdesk.Schema
use opsdesk.Schema.{Membership}
use opsdesk.State.{TenantContext, Action}
use opsdesk.Audit.{record_for_tenant}

abbrev pub is_privileged : Role → Bool
is_privileged role = if role == Role.owner then true else role == Role.admin

unfoldable pub assert_role_change_allowed : Role → Role → Role → Action Unit
assert_role_change_allowed actor_role target_role new_role =
    if actor_role == Role.owner
    then pure tt
    else if actor_role != Role.admin
    then throw (forbidden "Insufficient permissions")
    else if is_privileged target_role
    then throw (forbidden "Admins cannot modify owners or admins")
    else if is_privileged new_role
    then throw (forbidden "Admins cannot assign owner or admin roles")
    else pure tt

abbrev pub owns : ℕ → Membership → Bool
owns organization_id m = (m.organization_id == organization_id) && (m.role == Role.owner)

unfoldable pub assert_owner_remains : ℕ → Role → Role → Action Unit
assert_owner_remains organization_id target_role new_role =
    if (target_role == Role.owner) && (new_role != Role.owner)
    then (do
      owner_count ← gets (λ w. count (owns organization_id) w.memberships)
      reject (leb owner_count 1) (conflict "Organization must have at least one owner"))
    else pure tt

abbrev pub with_role : Role → ℕ → Membership → Membership
with_role new_role now m = record m { role = new_role; updated_at = now }

pub record_role_change : TenantContext → Membership → Role → ℕ → Action Unit
unfolding record_for_tenant
record_role_change actor target new_role now =
    if target.role != new_role
    then record_for_tenant actor Schema.member_role_changed Schema.membership target.id
        (("targetUserId", Schema.key (some target.user_id))
          ∷ ("fromRole", Schema.role target.role)
          ∷ ("toRole", Schema.role new_role)
          ∷ [])
        now
    else pure tt

unfoldable pub update_role : TenantContext → ℕ → Role → ℕ → Action Membership
update_role actor membership_id new_role now = transaction (do
  found ← gets (λ w.
      find_first (λ m. (m.id == membership_id) && (m.organization_id == actor.organization_id))
        w.memberships)
  target ← or_throw found (not_found "Member not found")
  assert_role_change_allowed actor.role target.role new_role
  assert_owner_remains actor.organization_id target.role new_role
  modify (λ w. record w {
    memberships = update_many (λ m. m.id == target.id) (with_role new_role now) w.memberships;
  })
  record_role_change actor target new_role now
  pure (with_role new_role now target))
