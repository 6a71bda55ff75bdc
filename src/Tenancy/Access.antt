-- ===== src/Tenancy/Access.antt =====
-- Who gets past the guards.
use opsdesk.Base.{
  Bool-cases, Option-cases, find_first, All, modify, Failure, Result, ok, err, by_pure, by_gets,
  by_reject, by_bind, by_then, by_modify, Preorder, Progress, ℕ, String, ◌≡◌, refl, sym, subst, ◌∙◌,
  ◌⊎◌, inl, inr, Bool, true, Option, none, some, List, [], arith,
}
use mathlib.Core.Option.{some-injective}
use opsdesk.Schema.{User, Membership}
use opsdesk.State.{TenantContext, State}
use opsdesk.Rbac
use opsdesk.Tenancy.{
  UserProfile, sync_found, sync_authenticated_user, is_membership_of, context_of, can_activate,
  resolve,
}
use opsdesk.Rbac.{Permission, has_permission}
use opsdesk.Rbac.Seniority.{can_activate_iff}

abbrev SameMembers : State → State → Type 0
SameMembers w w' = w'.memberships ≡ w.memberships

members_order : Preorder SameMembers
members_order = record { reflexive = λ w. refl; transitive = λ u v w p q. q ∙ p }

by_users : (f : State → List User) → Progress SameMembers (modify (λ w. record w { users = f w }))
by_users f = by_modify _ (λ w. refl)

sync_found-members :
    (email : String) (p : UserProfile) (id : ℕ) (u : Option User)
    → Progress SameMembers (sync_found email p id u)
unfolding sync_found
sync_found-members email p id none =
    search (by_bind, by_then, by_gets, by_reject, by_pure, by_users, members_order) depth 10
sync_found-members email p id (some u) =
    search (by_bind, by_then, by_gets, by_reject, by_pure, by_users, members_order) depth 10

-- synchronising a user touches no membership
sync-members :
    (trim_lower : String → String) (p : UserProfile) (id : ℕ)
    → Progress SameMembers (sync_authenticated_user trim_lower p id)
unfolding sync_authenticated_user
sync-members trim_lower p id =
    search (by_bind, by_then, by_gets, by_reject, sync_found-members, members_order) depth 10

is_verified :
    (trim_lower : String → String) (p : UserProfile) (id : ℕ) (w : State) {u : User}
    → (sync_authenticated_user trim_lower p id w).0 ≡ ok u
    → p.email_verified ≡ true
unfolding sync_authenticated_user
is_verified trim_lower p id w h = elim (Bool-cases p.email_verified) [
  | inl v ↦ v
  | inr v ↦ absurd (ground (arith, rw v at h))
]

Result-cases : {A : Type 0} (r : Result A) → ((e : Failure) × (r ≡ err e)) ⊎ ((a : A) × (r ≡ ok a))
Result-cases (ok a) = inr (a, refl)
Result-cases (err e) = inl (e, refl)

same_context : (s t : TenantContext) → ok s ≡ ok t → t ≡ s
same_context s t e = cc

-- A request that passes the guard has a verified address, and its tenant is a membership of the
-- synchronised user in the organization of the path.
pub tenant_is_member :
    (trim_lower : String → String) (org : ℕ) (authenticated : Bool) (p : UserProfile) (id : ℕ)
    (w : State) {t : TenantContext}
    → (can_activate trim_lower (some org) authenticated p id w).0 ≡ ok t
    → (authenticated ≡ true)
      × (p.email_verified ≡ true)
      × ((u : User) × (m : Membership) × ((sync_authenticated_user trim_lower p id w).0 ≡ ok u)
          × (find_first (is_membership_of u.id org) w.memberships ≡ some m)
          × (t ≡ context_of u.id m))
unfolding can_activate resolve
tenant_is_member trim_lower org authenticated p id w {t} h = elim (Bool-cases authenticated) [
  | inr a ↦ absurd (ground (arith, rw a at h))
  | inl a ↦ elim (Result-cases (sync_authenticated_user trim_lower p id w).0) [
    | inl (e, r) ↦ absurd (ground (arith, rw (a, r) at h))
    | inr (u, r) ↦ elim (Option-cases (find_first (is_membership_of u.id org) w.memberships)) [
      | inl f ↦ absurd (ground (arith, rw (a, r, (sync-members trim_lower p id).at w, f) at h))
      | inr (m, f) ↦ (
        a,
        is_verified trim_lower p id w r,
        (
          u,
          m,
          r,
          f,
          same_context (context_of u.id m) t
              (rw (a, r, (sync-members trim_lower p id).at w, f) at h),
        ),
      )
    ]
  ]
]

-- A request that passes both guards comes from a member of the organization of the path whose role
-- has each of the permissions that its handler requires, unless that requires none.
pub guards_admit :
    (trim_lower : String → String) (org : ℕ) (authenticated : Bool) (p : UserProfile) (id : ℕ)
    (required : List Permission) (w : State) {t : TenantContext}
    → (can_activate trim_lower (some org) authenticated p id w).0 ≡ ok t
    → Rbac.can_activate (some required) (some t) ≡ ok true
    → (u : User) × (m : Membership) × ((sync_authenticated_user trim_lower p id w).0 ≡ ok u)
      × (find_first (is_membership_of u.id org) w.memberships ≡ some m)
      × ((required ≡ []) ⊎ All (λ q. has_permission m.role q ≡ true) required)
guards_admit trim_lower org authenticated p id required w {t} passes permits =
    let (a, v, (u, m, r, f, e)) = tenant_is_member trim_lower org authenticated p id w passes in
    elim ((can_activate_iff required (some t)).0 permits) [
      | inl n ↦ (u, m, r, f, inl n)
      | inr (s, q, all) ↦ (
        u,
        m,
        r,
        f,
        inr (
            subst (λ c. All (λ k. has_permission c.role k ≡ true) required)
              (sym (some-injective _ _ q) ∙ e) all),
      )
    ]
