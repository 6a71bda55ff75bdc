-- ===== src/Rbac/Seniority.antt =====
-- What the role table and the guard promise.
use opsdesk.Base.{
  All, ok, ℕ, ◌≤◌, ◌≡◌, refl, ◌↔◌, ◌⊎◌, inl, inr, true, Option, none, some, List, [], ◌∷◌, arith,
}
use opsdesk.Enums.{Role}
use opsdesk.State.{TenantContext}
use opsdesk.Rbac.{Permission, has_permission, has_all_permissions, can_activate}

-- The order of the roles, from the least to the most trusted.
abbrev pub seniority : Role → ℕ
seniority Role.viewer = 0
seniority Role.agent = 1
seniority Role.admin = 2
seniority Role.owner = 3

-- A permission of a role is a permission of every more senior role.
pub has_permission_mono :
    (junior senior : Role) (p : Permission)
    → seniority junior ≤ seniority senior
    → has_permission junior p ≡ true
    → has_permission senior p ≡ true
unfolding has_permission
has_permission_mono junior senior p le h = ground arith

has_all_permissions_iff :
    (role : Role) (ps : List Permission)
    → (has_all_permissions role ps ≡ true) ↔ All (λ p. has_permission role p ≡ true) ps
unfolding has_all_permissions
has_all_permissions_iff role [] = (λ _. tt, λ _. refl)
has_all_permissions_iff role (p ∷ ps) =
    ground (arith, (has_all_permissions_iff role ps).0, (has_all_permissions_iff role ps).1)

-- The guard lets a request pass exactly when its handler requires nothing, or a tenant was resolved
-- whose role has each of the required permissions.
pub can_activate_iff :
    (required : List Permission) (tenant : Option TenantContext)
    → (can_activate (some required) tenant ≡ ok true) ↔ (
        (required ≡ [])
        ⊎ ((t : TenantContext) × (tenant ≡ some t)
            × All (λ p. has_permission t.role p ≡ true) required))
unfolding can_activate
can_activate_iff [] tenant = (λ _. inl refl, λ _. refl)
can_activate_iff (p ∷ ps) none = (λ h. cc, λ h. elim h [ inl e ↦ cc | inr (t, e, a) ↦ cc ])
can_activate_iff (p ∷ ps) (some t) = (
  λ h. inr (t, refl, (has_all_permissions_iff t.role (p ∷ ps)).0 (ground arith)),
  λ h. elim h [
    | inl e ↦ cc
    | inr (u, e, a) ↦ ground (arith, (has_all_permissions_iff u.role (p ∷ ps)).1 a)
  ],
)
