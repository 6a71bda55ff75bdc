-- ===== src/Rbac.antt =====
-- Roles and permissions: apps/api/src/rbac/permissions.ts, role-permissions.ts,
-- permissions.service.ts and permission.guard.ts.
pub mod Seniority
use opsdesk.Base.{
  if◌then◌else◌, Result, forbidden, ok, err, Bool, true, false, not, Option, none, some, List, [],
  ◌∷◌,
}
use opsdesk.Enums.{Role}
use opsdesk.State.{TenantContext}

pub data Permission : Type 0 where
  members_read members_manage invitations_manage customers_read customers_write : Permission
  tickets_read tickets_write audit_logs_read analytics_read : Permission

abbrev permission_beq : Permission → Permission → Bool
permission_beq members_read members_read = true
permission_beq members_manage members_manage = true
permission_beq invitations_manage invitations_manage = true
permission_beq customers_read customers_read = true
permission_beq customers_write customers_write = true
permission_beq tickets_read tickets_read = true
permission_beq tickets_write tickets_write = true
permission_beq audit_logs_read audit_logs_read = true
permission_beq analytics_read analytics_read = true
permission_beq _ _ = false

pub role_permissions : Role → List Permission
role_permissions Role.owner =
    members_read ∷ members_manage ∷ invitations_manage ∷ customers_read ∷ customers_write
    ∷ tickets_read ∷ tickets_write ∷ audit_logs_read ∷ analytics_read ∷ []
role_permissions Role.admin =
    members_read ∷ members_manage ∷ invitations_manage ∷ customers_read ∷ customers_write
    ∷ tickets_read ∷ tickets_write ∷ audit_logs_read ∷ analytics_read ∷ []
role_permissions Role.agent =
    members_read ∷ customers_read ∷ customers_write ∷ tickets_read ∷ tickets_write ∷ analytics_read
    ∷ []
role_permissions Role.viewer = members_read ∷ customers_read ∷ tickets_read ∷ analytics_read ∷ []

abbrev includes : List Permission → Permission → Bool
includes [] p = false
includes (x ∷ xs) p = if permission_beq x p then true else includes xs p

unfoldable pub has_permission : Role → Permission → Bool
unfolding role_permissions
has_permission role permission = includes (role_permissions role) permission

unfoldable pub has_all_permissions : Role → List Permission → Bool
has_all_permissions role [] = true
has_all_permissions role (p ∷ ps) =
    if has_permission role p then has_all_permissions role ps else false

check_tenant : List Permission → Option TenantContext → Result Bool
check_tenant required none = err (forbidden "Tenant context is required")
check_tenant required (some tenant) =
    if not (has_all_permissions tenant.role required)
    then err (forbidden "Insufficient permissions")
    else ok true

-- PermissionGuard.canActivate, on the metadata that the reflector found and on `request.tenant`
unfoldable pub can_activate : Option (List Permission) → Option TenantContext → Result Bool
unfolding check_tenant
can_activate none tenant = ok true
can_activate (some []) tenant = ok true
can_activate (some (p ∷ ps)) tenant = check_tenant (p ∷ ps) tenant
