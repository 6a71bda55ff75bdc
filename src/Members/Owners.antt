-- ===== src/Members/Owners.antt =====
-- What a role change keeps: an owner in every organization, the ranks that an actor may touch, and
-- the members of the other organizations.
use native.Mathlib.Nat.{le_trans}
use opsdesk.Base.{
  nat_beq_iff, Bool-cases, ◌==◌, ◌!=◌, find_first, find_many, count, update_many, All,
  find_first_holds, find_many-update_many, count-update_many, All-map, Distinct,
  Distinct-find_first, count-update_one, count-le-count_update, IsErr, ok, ℕ, ◌≤◌, ◌≡◌, refl, subst,
  ◌≢◌, ◌⊎◌, inl, inr, Bool, true, false, ◌&&◌, some, List, arith, nat_eq,
}
use opsdesk.Enums.{Role, role_eq}
use opsdesk.State.{TenantContext, State}
use opsdesk.Members.{update_role, owns, with_role}
use opsdesk.Members.Outcomes.{after_change-memberships, update_role_cases, is_target, MayChange}
use opsdesk.Schema.{Membership}

module _ (t : Membership) (new : Role) (now : ℕ) (org : ℕ) where
  abbrev same_id : Membership → Bool
  same_id m = m.id == t.id

  -- a row that is the target: outside its organization it owns nothing before or after
  elsewhere_row :
      (t.organization_id == org) ≡ false
      → (x : Membership) → (x.id ≡ t.id → x ≡ t)
      → same_id x ≡ true
      → owns org (with_role new now x) ≡ owns org x
  elsewhere_row away x only h =
      let same : x ≡ t = only (ground (arith, h)) in rw same (ground (arith, away))

  kept_row :
      ((t.role == Role.owner) && (new != Role.owner)) ≡ false
      → (x : Membership) → (x.id ≡ t.id → x ≡ t)
      → same_id x ≡ true
      → owns org x ≡ true
      → owns org (with_role new now x) ≡ true
  kept_row stays x only h o =
      let same : x ≡ t = only (ground (arith, h)) in
      let held : owns org t ≡ true = rw same at o in rw same (ground (arith, held, stays))

  demotion :
      ((t.role == Role.owner) && (new != Role.owner)) ≡ true
      → (t.role ≡ Role.owner) × (new ≢ Role.owner)
  demotion h = ground arith

  owner_survives :
      (rows : List Membership)
      → Distinct (λ m. m.id) rows
      → All (λ x. x.id ≡ t.id → x ≡ t) rows
      → (t.role ≡ Role.owner → new ≢ Role.owner → 2 ≤ count (owns t.organization_id) rows)
      → 1 ≤ count (owns org) rows
      → 1 ≤ count (owns org) (update_many same_id (with_role new now) rows)
  owner_survives rows d only keeps h =
      elim (Bool-cases ((t.role == Role.owner) && (new != Role.owner))) [
        | inl demotes ↦ elim (Bool-cases (t.organization_id == org)) [
          | inl home ↦
              let two : 2 ≤ count (owns org) rows =
                subst (λ o. 2 ≤ count (owns o) rows) ((nat_beq_iff t.organization_id org).0 home)
                  (keeps (demotion demotes).0 (demotion demotes).1) in
              omega (
                arith,
                two,
                count-update_one (λ m. m.id) (owns org) t.id (with_role new now) rows d,
              )
          | inr away ↦
              rw
                (count-update_many (owns org) same_id (with_role new now) rows
                  (All-map _ _ rows (elsewhere_row away) only))
                h
        ]
        | inr stays ↦ le_trans h (
            count-le-count_update (owns org) same_id (with_role new now) rows
              (All-map _ _ rows (kept_row stays) only))
      ]

home_of :
    (actor : TenantContext) (membership_id : ℕ) (t : Membership) (rows : List Membership)
    → find_first (is_target actor membership_id) rows ≡ some t
    → t.organization_id ≡ actor.organization_id
home_of actor membership_id t rows found =
    ground (arith, find_first_holds (is_target actor membership_id) rows found)

-- An organization with an owner has an owner after the call, whether the call succeeds or throws.
pub update_role-owner :
    (actor : TenantContext) (membership_id : ℕ) (new_role : Role) (now : ℕ) (w : State) (org : ℕ)
    → Distinct (λ m. m.id) w.memberships
    → 1 ≤ count (owns org) w.memberships
    → 1 ≤ count (owns org) (update_role actor membership_id new_role now w).1.memberships
update_role-owner actor membership_id new_role now w org d h =
    elim (update_role_cases actor membership_id new_role now w) [
      | inl (e, r) ↦ rw r h
      | inr (t, c) ↦
          rw (c.result, after_change-memberships actor membership_id new_role now w t)
            (owner_survives t new_role now org w.memberships d
              (Distinct-find_first (λ m. m.id) _ w.memberships d c.found)
              (λ r n. rw (home_of actor membership_id t w.memberships c.found) (c.keeps_owner r n))
              h)
    ]

-- A call that returns has changed the role of a member of the actor's organization, whose old and
-- new roles the actor's role may handle: an owner handles all, an admin only agents and viewers,
-- nobody else any. It returns that member's row with the new role and the time of the call, which is
-- the only membership that it changes. A call that throws writes nothing.
pub update_role_authorised :
    (actor : TenantContext) (membership_id : ℕ) (new_role : Role) (now : ℕ) (w : State)
    → let (r, w') = update_role actor membership_id new_role now w in
      (IsErr r × (w' ≡ w))
      ⊎ ((target : Membership) × (find_first (is_target actor membership_id) w.memberships
            ≡ some target)
          × MayChange actor.role target.role new_role
          × (r ≡ ok (record target { role = new_role; updated_at = now }))
          × (w'.memberships
              ≡ update_many
                  (λ m. m.id == target.id)
                  (λ m. record m { role = new_role; updated_at = now })
                  w.memberships))
update_role_authorised actor membership_id new_role now w =
    elim (update_role_cases actor membership_id new_role now w) [
      | inl (e, r) ↦ rw r (inl (tt, refl))
      | inr (t, c) ↦ rw c.result (
          inr (
            t,
            c.found,
            c.allowed,
            refl,
            after_change-memberships actor membership_id new_role now w t,
          ))
    ]

foreign_row :
    (actor : TenantContext) (t : Membership)
    → t.organization_id ≡ actor.organization_id
    → (x : Membership) → (x.id ≡ t.id → x ≡ t)
    → (x.id == t.id) ≡ true
    → ((x.organization_id != actor.organization_id) ≡ false)
      × ((x.organization_id != actor.organization_id) ≡ false)
foreign_row actor t home x only h =
    let same : x ≡ t = only (ground (arith, h)) in rw same (ground (arith, home))

-- The members of every other organization are after the call what they were before.
pub update_role_isolated :
    (actor : TenantContext) (membership_id : ℕ) (new_role : Role) (now : ℕ) (w : State)
    → Distinct (λ m. m.id) w.memberships
    → find_many
        (λ m. m.organization_id != actor.organization_id)
        (update_role actor membership_id new_role now w).1.memberships
      ≡ find_many (λ m. m.organization_id != actor.organization_id) w.memberships
update_role_isolated actor membership_id new_role now w d =
    elim (update_role_cases actor membership_id new_role now w) [
      | inl (e, r) ↦ rw r
      | inr (t, c) ↦
          rw (c.result, after_change-memberships actor membership_id new_role now w t)
            (find_many-update_many _ _ _ w.memberships (
              All-map _ _ w.memberships
                (foreign_row actor t (home_of actor membership_id t w.memberships c.found))
                (Distinct-find_first (λ m. m.id) _ w.memberships d c.found)))
    ]
