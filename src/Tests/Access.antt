-- ===== src/Tests/Access.antt =====
-- The guards and tag names.
use opsdesk.Base.{
  find_first, update_many, All, Result, conflict, ok, err, ◌≡◌, refl, ◌⊎◌, true, false, none, some,
  [], ◌∷◌,
}
use opsdesk.Schema
use opsdesk.Schema.{User, Membership, Tag, AuditLog}
use opsdesk.State.{State}
use opsdesk.Tests.Sample.{workspace, ann, cat, as_tenant}
use opsdesk.Rbac
use opsdesk.Rbac.{has_permission, has_all_permissions}
use opsdesk.Tenancy.{
  UserProfile, can_activate, sync_authenticated_user, sync_found, resolve, is_membership_of,
}
use opsdesk.Tenancy.Access.{guards_admit}
use opsdesk.Tags
use opsdesk.Tags.{new_tag}
use opsdesk.Tags.Names.{create_tag_outcome, has_tag}

abbrev profile : UserProfile
profile = record {
  sub = "auth|3";
  email = "cat@example.com";
  email_verified = true;
  name = some "Cat";
  picture = none;
}

abbrev registered : State
registered = record workspace {
  users =
      record {
        id = 3;
        auth_provider_id = "auth|3";
        email = "cat@example.com";
        name = none;
        avatar_url = none;
      }
      ∷ [];
}

passes : (can_activate (λ s. s) (some 1) true profile 9 registered).0 ≡ ok (as_tenant cat)
unfolding can_activate sync_authenticated_user sync_found resolve find_first update_many
passes = refl

permits : Rbac.can_activate (some (Rbac.tickets_write ∷ [])) (some (as_tenant cat)) ≡ ok true
unfolding Rbac.can_activate has_all_permissions has_permission
permits = refl

guards_admit_example :
    (u : User) × (m : Membership) × ((sync_authenticated_user (λ s. s) profile 9 registered).0
      ≡ ok u)
    × (find_first (is_membership_of u.id 1) registered.memberships ≡ some m)
    × (((Rbac.tickets_write ∷ []) ≡ [])
        ⊎ All (λ q. has_permission m.role q ≡ true) (Rbac.tickets_write ∷ []))
guards_admit_example =
    guards_admit (λ s. s) 1 true profile 9 (Rbac.tickets_write ∷ []) registered passes permits

-- another request adds the same name
abbrev urgent_added : State → State
urgent_added w = record w { tags = new_tag 1 "Urgent" "urgent" 1 4 ∷ w.tags }

create_tag_outcome_example :
    let taken : Result Tag = err (conflict "A tag with this name already exists") in
    let tag : Tag = record {
      id = 2;
      organization_id = 1;
      name = "urgent";
      normalized_name = "urgent";
      created_at = 5;
    } in
    let row : AuditLog = record {
      organization_id = 1;
      actor_user_id = some (as_tenant ann).user_id;
      actor_membership_id = some (as_tenant ann).membership_id;
      actor_role = some (as_tenant ann).role;
      action = Schema.tag_created;
      entity_type = Schema.tag;
      entity_id = some 2;
      metadata = [];
      created_at = 5;
    } in
    let called = Tags.create (λ s. s) urgent_added (as_tenant ann) "urgent" 2 5 workspace in
    ((has_tag 1 "urgent" workspace ≡ true) × (called ≡ (taken, workspace)))
    ⊎ ((has_tag 1 "urgent" workspace ≡ false)
        × (has_tag 1 "urgent" (urgent_added workspace) ≡ true)
        × (called ≡ (taken, urgent_added workspace)))
    ⊎ ((has_tag 1 "urgent" workspace ≡ false)
        × (has_tag 1 "urgent" (urgent_added workspace) ≡ false)
        × (called ≡ (
          ok tag,
          record (urgent_added workspace) {
            tags = tag ∷ (urgent_added workspace).tags;
            audit_logs = row ∷ (urgent_added workspace).audit_logs;
          },
        )))
create_tag_outcome_example =
    create_tag_outcome (λ s. s) urgent_added (as_tenant ann) "urgent" 2 5 workspace
