-- ===== src/Tests/Organizations.antt =====
-- Organizations and their owners.
use opsdesk.Base.{count, codes, drop_while, ◌≡◌, refl, [], ◌∷◌, ◌++◌, arith}
use opsdesk.Enums.{Role}
use opsdesk.Schema.{Organization}
use opsdesk.State.{State}
use opsdesk.Tests.Sample.{workspace, as_tenant, ann}
use opsdesk.Organizations.{
  create_for_user, generate_slug, dashed, without_marks, without_outer_dashes, new_organization,
}
use opsdesk.Organizations.Owned.{Owned, reached-Owned, Reaches}
use opsdesk.Members.{update_role}

a_slug :
    generate_slug
      (λ s. s)
      (λ s. s)
      (codes "--caf " ++ (0x301 ∷ codes "& co!"))
      (codes "01234567-89ab")
    ≡ codes "caf-co-01234567"
unfolding generate_slug dashed without_marks without_outer_dashes drop_while
a_slug = refl

abbrev acme : Organization
acme = new_organization 1 (codes "Acme") (codes "acme-1") 0

abbrev with_acme : State
with_acme = record workspace { organizations = acme ∷ [] }

-- a second organization is created, and bob becomes an owner of the first
abbrev after_both : State
after_both =
    (update_role (as_tenant ann) 12 Role.owner 9
      (create_for_user (λ s. s) (λ s. s) 2 (codes "New") (codes "01234567-89ab") 2 31 8
        with_acme).1).1

acme-Owned : Owned with_acme
unfolding count
acme-Owned = (omega arith, (omega arith, tt))

reached-Owned_example : Owned after_both
reached-Owned_example = reached-Owned with_acme after_both acme-Owned (
    Reaches.changes_role
      (Reaches.creates Reaches.unchanged (λ s. s) (λ s. s) 2 (codes "New") (codes "01234567-89ab") 2
        31 8 (omega arith))
      (as_tenant ann) 12 Role.owner 9)
