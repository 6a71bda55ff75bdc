-- ===== src/Tenancy.antt =====
-- From the authenticated request to its tenant: UsersService.syncAuthenticatedUser of
-- apps/api/src/users/users.service.ts, MembershipsService.findForUserAndOrganization of
-- memberships/memberships.service.ts, TenantContextService and TenantMembershipGuard of tenancy.
pub mod Access
use opsdesk.Base.{
  ◌==◌, ◌!=◌, find_first, update_many, any, pure, throw, gets, or_throw, modify, reject,
  bad_request, unauthorized, forbidden, not_found, conflict, unique_violation, ℕ, String, Bool, not,
  ◌&&◌, Option, none, some, List, ◌∷◌, ◌>>=◌, ◌>>◌, string_eq, nat_eq,
}
use opsdesk.Schema.{User, Membership}
use opsdesk.State.{TenantContext, Action}

-- the profile that the identity provider returns
pub record UserProfile : Type 0 where
  pub sub : String
  pub email : String
  pub email_verified : Bool
  pub name : Option String
  pub picture : Option String

abbrev pub with_profile : String → UserProfile → User → User
with_profile email p u = record u { email = email; name = p.name; avatar_url = p.picture }

abbrev pub new_user : String → UserProfile → ℕ → User
new_user email p id = record {
  id = id;
  auth_provider_id = p.sub;
  email = email;
  name = p.name;
  avatar_url = p.picture;
}

-- another user holds the address, which is a unique column
abbrev pub email_taken : ℕ → String → List User → Bool
email_taken id email users = any (λ u. (u.email == email) && (u.id != id)) users

unfoldable pub sync_found : String → UserProfile → ℕ → Option User → Action User
sync_found email p id (some u) = do
  taken ← gets (λ w. email_taken u.id email w.users)
  reject taken unique_violation
  modify (λ w. record w { users = update_many (λ x. x.id == u.id) (with_profile email p) w.users })
  pure (with_profile email p u)
sync_found email p id none = do
  taken ← gets (λ w. any (λ u. u.email == email) w.users)
  reject taken (conflict "An account already exists with this email address")
  modify (λ w. record w { users = new_user email p id ∷ w.users })
  pure (new_user email p id)

-- `trim_lower` stands for `trim().toLowerCase()`, `id` is the id of a new user.
unfoldable pub sync_authenticated_user : (String → String) → UserProfile → ℕ → Action User
unfolding sync_found
sync_authenticated_user trim_lower p id = do
  reject (not p.email_verified) (forbidden "A verified email address is required")
  found ← gets (λ w. find_first (λ u. u.auth_provider_id == p.sub) w.users)
  sync_found (trim_lower p.email) p id found

abbrev pub is_membership_of : ℕ → ℕ → Membership → Bool
is_membership_of user_id org m = (m.user_id == user_id) && (m.organization_id == org)

abbrev pub context_of : ℕ → Membership → TenantContext
context_of user_id m = record {
  user_id = user_id;
  organization_id = m.organization_id;
  membership_id = m.id;
  role = m.role;
}

unfoldable pub resolve : (user_id organization_id : ℕ) → Action (Option TenantContext)
resolve user_id organization_id = do
  membership ← gets (λ w. find_first (is_membership_of user_id organization_id) w.memberships)
  pure (elim membership [ none ↦ none | some m ↦ some (context_of user_id m) ])

-- The guard on the `organizationId` of the path, `none` if that is no UUID, and on whether the
-- request carries a subject and an access token; it returns the tenant that it sets.
unfoldable pub can_activate :
    (String → String) → Option ℕ → Bool → UserProfile → ℕ → Action TenantContext
can_activate trim_lower none authenticated p id = throw (bad_request "Invalid organization ID")
can_activate trim_lower (some organization_id) authenticated p id = do
  reject (not authenticated) (unauthorized "Authentication context is missing")
  user ← sync_authenticated_user trim_lower p id
  tenant ← resolve user.id organization_id
  or_throw tenant (not_found "Organization not found")
