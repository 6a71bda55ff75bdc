-- ===== src/Tests/Team.antt =====
-- Role changes and permissions.
use opsdesk.Base.{
  ◌==◌, find_first, count, update_many, Distinct, IsErr, conflict, ok, err, ◌≡◌, refl, ◌⊎◌, some,
  arith, nat_eq,
}
use opsdesk.Enums.{Role}
use opsdesk.Schema.{Membership}
use opsdesk.Members.Outcomes.{MayChange, is_target}
use opsdesk.Tests.Sample.{as_tenant, ann, bob, workspace}
use opsdesk.Members.{update_role, assert_owner_remains, assert_role_change_allowed}
use opsdesk.Members.Owners.{update_role_authorised}

team_Distinct : Distinct (λ m. m.id) workspace.memberships
team_Distinct = omega arith

-- the last owner cannot step down, and a second one can
last_owner_stays :
    (update_role (as_tenant ann) 11 Role.agent 7 workspace).0
    ≡ err (conflict "Organization must have at least one owner")
unfolding update_role find_first count assert_role_change_allowed assert_owner_remains
last_owner_stays = refl

update_role_authorised_example :
    let (r, w') = update_role (as_tenant bob) 13 Role.viewer 7 workspace in
    (IsErr r × (w' ≡ workspace))
    ⊎ ((target : Membership) × (find_first (is_target (as_tenant bob) 13) workspace.memberships
          ≡ some target)
        × MayChange Role.admin target.role Role.viewer
        × (r ≡ ok (record target { role = Role.viewer; updated_at = 7 }))
        × (w'.memberships
            ≡ update_many
                (λ m. m.id == target.id)
                (λ m. record m { role = Role.viewer; updated_at = 7 })
                workspace.memberships))
update_role_authorised_example = update_role_authorised (as_tenant bob) 13 Role.viewer 7 workspace
