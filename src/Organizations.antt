-- ===== src/Organizations.antt =====
-- OrganizationsService of apps/api/src/organizations/organizations.service.ts. `nfkd` stands for
-- `normalize('NFKD')`, `to_lower` for `toLowerCase()`; the random UUID is an argument.
pub mod Owned
use opsdesk.Base.{
  leb, nat_beq, if◌then◌else◌, ◌==◌, take, find_first, find_many, any, pure, gets, transaction,
  modify, reject, unique_violation, Text, codes, drop_while, ℕ, Bool, true, false, ◌&&◌, ◌||◌,
  Option, none, some, List, [], ◌∷◌, ◌++◌, ◌>>=◌, ◌>>◌, text_eq, nat_eq,
}
use mathlib.Core.List.{reverse}
use opsdesk.Enums.{Role}
use opsdesk.Schema
use opsdesk.Schema.{Organization, Membership}
use opsdesk.State.{State, Action}
use opsdesk.Audit.{record_audit}
use opsdesk.Listing.Order.{ascending, order_by}

-- `/[\u0300-\u036f]/g`
unfoldable pub without_marks : Text → Text
without_marks [] = []
without_marks (c ∷ s) =
    let rest = without_marks s in if leb 0x300 c && leb c 0x36f then rest else c ∷ rest

-- `[a-z0-9]`
abbrev pub is_slug : ℕ → Bool
is_slug c = (leb b'a' c && leb c b'z') || (leb b'0' c && leb c b'9')

abbrev pub is_dash : ℕ → Bool
is_dash c = nat_beq c b'-'

-- a run of other characters becomes one dash; the flag says that the last one was another
unfoldable pub dashed : Bool → Text → Text
dashed after [] = []
dashed after (c ∷ s) = elim (is_slug c) [
  | true ↦ c ∷ dashed false s
  | false ↦ if after then dashed true s else b'-' ∷ dashed true s
]

-- `replace(/^-+|-+$/g, '')`
unfoldable pub without_outer_dashes : Text → Text
without_outer_dashes s = reverse (drop_while is_dash (reverse (drop_while is_dash s)))

abbrev pub or_organization : Text → Text
or_organization [] = codes "organization"
or_organization (c ∷ s) = c ∷ s

unfoldable pub generate_slug : (Text → Text) → (Text → Text) → Text → Text → Text
generate_slug nfkd to_lower name uuid =
    let base =
      take 50 (without_outer_dashes (dashed false (to_lower (without_marks (nfkd name))))) in
    or_organization base ++ (b'-' ∷ take 8 uuid)

pub record CreatedOrganization : Type 0 where
  pub organization : Organization
  pub role : Role

abbrev pub new_organization : ℕ → Text → Text → ℕ → Organization
new_organization id name slug now = record {
  id = id;
  name = name;
  slug = slug;
  created_at = now;
  updated_at = now;
}

abbrev pub first_owner : ℕ → ℕ → ℕ → ℕ → Membership
first_owner user_id organization_id id now = record {
  id = id;
  user_id = user_id;
  organization_id = organization_id;
  role = Role.owner;
  created_at = now;
  updated_at = now;
}

unfoldable pub record_creation : ℕ → ℕ → ℕ → ℕ → Action Unit
unfolding record_audit
record_creation user_id organization_id membership_id now =
    record_audit
      (record {
        organization_id = organization_id;
        actor_user_id = some user_id;
        actor_membership_id = some membership_id;
        actor_role = some Role.owner;
        action = Schema.organization_created;
        entity_type = Schema.organization;
        entity_id = some organization_id;
        metadata = [];
      })
      now

-- the slug is unique
unfoldable pub create_for_user :
    (nfkd to_lower : Text → Text) (user_id : ℕ) (name uuid : Text)
    (organization_id membership_id now : ℕ)
    → Action CreatedOrganization
unfolding generate_slug record_creation
create_for_user nfkd to_lower user_id name uuid organization_id membership_id now = transaction (do
  taken ← gets (λ w. any (λ o. o.slug == generate_slug nfkd to_lower name uuid) w.organizations)
  reject taken unique_violation
  modify (λ w. record w {
    organizations =
        new_organization organization_id name (generate_slug nfkd to_lower name uuid) now
        ∷ w.organizations;
  })
  modify (λ w. record w {
    memberships = first_owner user_id organization_id membership_id now ∷ w.memberships;
  })
  record_creation user_id organization_id membership_id now
  pure (record {
    organization =
        new_organization organization_id name (generate_slug nfkd to_lower name uuid) now;
    role = Role.owner;
  }))

abbrev pub organization_with :
    Role → Option Organization → List CreatedOrganization → List CreatedOrganization
organization_with role none rest = rest
organization_with role (some o) rest = record { organization = o; role = role } ∷ rest

-- each membership with its organization, which a foreign key says is there
abbrev pub with_organizations : List Organization → List Membership → List CreatedOrganization
with_organizations organizations [] = []
with_organizations organizations (m ∷ ms) =
    organization_with m.role (find_first (λ o. o.id == m.organization_id) organizations)
      (with_organizations organizations ms)

-- memberships of one time stand in the order of their ids
unfoldable pub list_for_user : ℕ → State → List CreatedOrganization
list_for_user user_id w = with_organizations w.organizations (
    order_by (ascending (λ m. m.created_at) (λ m. m.id))
      (find_many (λ m. m.user_id == user_id) w.memberships))

unfoldable pub find_by_id : ℕ → State → Option Organization
find_by_id id w = find_first (λ o. o.id == id) w.organizations
