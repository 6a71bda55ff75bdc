-- ===== src/Organizations/Owned.antt =====
-- Every organization has an owner, whatever is done.
use opsdesk.Base.{
  Bool-cases, ◌==◌, count, any, All, All-map, Distinct, Distinct-update_many, Text, ℕ, ◌≤◌, String,
  ◌≡◌, refl, ◌≢◌, inl, inr, List, ◌∷◌, arith, text_eq, nat_eq,
}
use opsdesk.Schema.{Membership, Organization}
use opsdesk.State.{State, TenantContext}
use opsdesk.Members.{update_role, owns, with_role}
use opsdesk.Invitations.{accept, new_membership, record_acceptance}
use opsdesk.Organizations.{
  create_for_user, record_creation, new_organization, first_owner, generate_slug,
}
use opsdesk.Enums.{Role, role_eq}
use opsdesk.Invitations.Acceptance.{accept_outcome}
use opsdesk.Members.Outcomes.{
  after_change-memberships, update_role_cases, after_change-organizations,
}
use opsdesk.Members.Owners.{update_role-owner}

abbrev pub HasOwner : List Membership → Organization → Type 0
HasOwner memberships o = 1 ≤ count (owns o.id) memberships

-- the ids of the memberships are distinct, and each organization has an owner
abbrev pub Owned : State → Type 0
Owned w =
    Distinct (λ (m : Membership). m.id) w.memberships × All (HasOwner w.memberships) w.organizations

-- no membership has the id
abbrev pub IsFresh : ℕ → State → Type 0
IsFresh id w = All (λ (m : Membership). m.id ≢ id) w.memberships

-- The states that the operations on memberships lead to, each new membership with a fresh id.
pub data Reaches (w : State) : State → Type 0 where
  unchanged : Reaches w w
  creates :
      {v : State}
      → Reaches w v
      → (nfkd to_lower : Text → Text) (user_id : ℕ) (name uuid : Text)
        (organization_id membership_id now : ℕ)
      → IsFresh membership_id v
      → Reaches w
          (create_for_user nfkd to_lower user_id name uuid organization_id membership_id now v).1
  changes_role :
      {v : State}
      → Reaches w v
      → (actor : TenantContext) (membership_id : ℕ) (role : Role) (now : ℕ)
      → Reaches w (update_role actor membership_id role now v).1
  accepts :
      {v : State}
      → Reaches w v
      → (hash trim lower : String → String) (user_id : ℕ) (address token : String)
        (membership_id now : ℕ)
      → IsFresh membership_id v
      → Reaches w (accept hash trim lower user_id address token membership_id now v).1

-- a further membership takes no owner away
one_more :
    (m : Membership) (ms : List Membership) (o : Organization) → HasOwner ms o → HasOwner (m ∷ ms) o
unfolding count
one_more m ms o h = ground (arith, h)

first_owner-HasOwner :
    (user_id : ℕ) (name slug : Text) (id membership_id now : ℕ) (ms : List Membership)
    → HasOwner (first_owner user_id id membership_id now ∷ ms) (new_organization id name slug now)
unfolding count
first_owner-HasOwner user_id name slug id membership_id now ms = ground arith

create_for_user-Owned :
    (nfkd to_lower : Text → Text) (user_id : ℕ) (name uuid : Text)
    (organization_id membership_id now : ℕ) (v : State)
    → IsFresh membership_id v
    → Owned v
    → Owned (create_for_user nfkd to_lower user_id name uuid organization_id membership_id now v).1
unfolding create_for_user record_creation
create_for_user-Owned nfkd to_lower user_id name uuid organization_id membership_id now v fresh a =
    elim (Bool-cases (any (λ o. o.slug == generate_slug nfkd to_lower name uuid) v.organizations)) [
      | inl e ↦ rw e a
      | inr e ↦ rw e (
        (fresh, a.0),
        (
          first_owner-HasOwner user_id name (generate_slug nfkd to_lower name uuid) organization_id
              membership_id now v.memberships,
          All-map (HasOwner v.memberships)
              (HasOwner (first_owner user_id organization_id membership_id now ∷ v.memberships))
              v.organizations
              (one_more (first_owner user_id organization_id membership_id now) v.memberships) a.1,
        ),
      )
    ]

update_role-memberships :
    (actor : TenantContext) (membership_id : ℕ) (role : Role) (now : ℕ) (v : State)
    → Distinct (λ (m : Membership). m.id) v.memberships
    → let v' = (update_role actor membership_id role now v).1 in
      Distinct (λ (m : Membership). m.id) v'.memberships × (v'.organizations ≡ v.organizations)
update_role-memberships actor membership_id role now v d =
    elim (update_role_cases actor membership_id role now v) [
      | inl (e, r) ↦ rw r (d, refl)
      | inr (t, c) ↦
          rw (c.result, after_change-memberships actor membership_id role now v t)
            (
              Distinct-update_many (λ m. m.id) _ (with_role role now) v.memberships (λ m. refl) d,
              after_change-organizations actor membership_id role now v t,
            )
    ]

update_role-Owned :
    (actor : TenantContext) (membership_id : ℕ) (role : Role) (now : ℕ) (v : State)
    → Owned v
    → Owned (update_role actor membership_id role now v).1
update_role-Owned actor membership_id role now v a =
    let kept = update_role-memberships actor membership_id role now v a.0 in
    (
      kept.0,
      rw kept.1 (
          All-map _ _ v.organizations
            (λ o h. update_role-owner actor membership_id role now v o.id a.0 h) a.1),
    )

accept-Owned :
    (hash trim lower : String → String) (user_id : ℕ) (address token : String)
    (membership_id now : ℕ) (v : State)
    → IsFresh membership_id v
    → Owned v
    → Owned (accept hash trim lower user_id address token membership_id now v).1
unfolding record_acceptance
accept-Owned hash trim lower user_id address token membership_id now v fresh a =
    elim (accept_outcome hash trim lower user_id address token membership_id now v) [
      | inl (e, r) ↦ rw r a
      | inr (i, c) ↦ rw c.result (
        (fresh, a.0),
        All-map _ _ v.organizations
            (one_more (new_membership user_id i membership_id now) v.memberships) a.1,
      )
    ]

-- Where every organization has an owner and the memberships have distinct ids, every organization
-- has one after any sequence of creating organizations, changing roles and accepting invitations,
-- the new organizations too, if each new membership has an id of its own.
pub reached-Owned : (w v : State) → Owned w → Reaches w v → Owned v
reached-Owned w _ a unchanged = a
reached-Owned w _ a
      (creates {v} r nfkd to_lower user_id name uuid organization_id membership_id now fresh) =
    create_for_user-Owned nfkd to_lower user_id name uuid organization_id membership_id now v fresh
      (reached-Owned w v a r)
reached-Owned w _ a (changes_role {v} r actor membership_id role now) =
    update_role-Owned actor membership_id role now v (reached-Owned w v a r)
reached-Owned w _ a (accepts {v} r hash trim lower user_id address token membership_id now fresh) =
    accept-Owned hash trim lower user_id address token membership_id now v fresh
      (reached-Owned w v a r)
