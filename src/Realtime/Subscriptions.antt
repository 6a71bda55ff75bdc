-- ===== src/Realtime/Subscriptions.antt =====
-- Every message of a socket keeps its rooms in step with `client.data`.
use mathlib.Core.Option.{some-injective}
use opsdesk.Base.{
  Bool-cases, Option-cases, ◌==◌, find_first, find_first_holds, All-find_first, All-map, is_none, ℕ,
  ◌≡◌, refl, sym, inl, inr, Bool, true, false, Option, none, some, arith, nat_eq,
}
use opsdesk.State.{State, TenantContext}
use opsdesk.Realtime.Rooms.{
  is_in, lookup, put, lookup-put, lookup-remove, All-lookup, All-put, All-remove,
}
use opsdesk.Realtime.{
  Client, JoinedTicket, exists_at, join_existing, join_resolved, leave_known, tenant_at,
  forget_organization, join_organization, join_readable, join_ticket, leave_organization,
  leave_ticket,
}
use opsdesk.Realtime.Messages.{
  serve, Owned, IsEntry, Synced, holds, Message, to_join_organization, to_join_ticket,
  to_leave_organization, to_leave_ticket,
}
use opsdesk.Tenancy.{context_of, is_membership_of, resolve}
use opsdesk.Tickets.Queries.{exists_in_organization, in_org}
use opsdesk.Rbac.{tickets_read, has_permission}
use opsdesk.Realtime.Forgetting.{forget-Synced}

-- the tenant that a query returns is of the organization that it asked for
pub tenant_at-organization :
    (w : State) (u o : ℕ) {t : TenantContext} → tenant_at w u o ≡ some t → t.organization_id ≡ o
unfolding resolve
tenant_at-organization w u o {t} h =
    elim (Option-cases (find_first (is_membership_of u o) w.memberships)) [
      | inl e ↦ absurd (ground (arith, rw e at h))
      | inr (m, e) ↦
          let same : context_of u m ≡ t = some-injective _ _ (rw e at h) in
          ground (arith, find_first_holds (is_membership_of u o) w.memberships e, same)
    ]

exists_at-owner :
    (owner : ℕ → ℕ) (w : State) (o t : ℕ) → Owned owner w → exists_at w o t ≡ true → owner t ≡ o
unfolding exists_in_organization
exists_at-owner owner w o t a h = elim (Option-cases (find_first (in_org o t) w.tickets)) [
  | inl e ↦ absurd (ground (arith, rw e at h))
  | inr (x, e) ↦ ground (
    arith,
    find_first_holds (in_org o t) w.tickets e,
    All-find_first (λ y. y.organization_id ≡ owner y.id) (in_org o t) w.tickets a e,
  )
]

module _ (owner : ℕ → ℕ) (c : Client) (s : Synced owner c) where
  more_tenants :
      (o : ℕ) (tenant : TenantContext) (e : ℕ × JoinedTicket)
      → IsEntry owner c e
      → IsEntry owner (record c { tenants = put o tenant c.tenants }) e
  more_tenants o tenant (k, j) a =
      (a.0, a.1, ground (arith, a.2, lookup-put o j.organization_id tenant c.tenants))

  join_resolved-Synced : (t : Option TenantContext) → Synced owner (join_resolved t c).1
  unfolding join_resolved is_in
  join_resolved-Synced none = s
  join_resolved-Synced (some t) = record {
    users = λ u. s.users u;
    organizations =
        λ p. ground (arith, s.organizations p, lookup-put t.organization_id p t c.tenants);
    tickets = λ p q. s.tickets p q;
    entries = All-map (IsEntry owner c) _ c.tickets (more_tenants t.organization_id t) s.entries;
  }

  refreshed-Synced :
      (o : ℕ) (t : TenantContext)
      → is_none (lookup o c.tenants) ≡ false
      → Synced owner (record c { tenants = put o t c.tenants })
  refreshed-Synced o t joined = record {
    users = λ u. s.users u;
    organizations = λ p. ground (arith, joined, s.organizations p, lookup-put o p t c.tenants);
    tickets = λ p q. s.tickets p q;
    entries = All-map (IsEntry owner c) _ c.tickets (more_tenants o t) s.entries;
  }

  -- a ticket is joined in its own organization only
  holds-owner : (p t : ℕ) → holds p (lookup t c.tickets) ≡ true → owner t ≡ p
  holds-owner p t h = elim (Option-cases (lookup t c.tickets)) [
    | inl e ↦ absurd (ground (arith, rw e at h))
    | inr (j, e) ↦
        ground (arith, rw e at h, (All-lookup (IsEntry owner c) t c.tickets s.entries e).1)
  ]

  join_existing-Synced :
      (b : Bool) (o t : ℕ)
      → is_none (lookup o c.tenants) ≡ false
      → (b ≡ true → owner t ≡ o)
      → Synced owner (join_existing b o t c).1
  unfolding join_existing is_in
  join_existing-Synced false o t joined own = s
  join_existing-Synced true o t joined own =
      let j : JoinedTicket = record { organization_id = o; ticket_id = t } in
      record {
        users = λ u. s.users u;
        organizations = λ p. s.organizations p;
        tickets = λ p q.
            ground (arith, s.tickets p q, lookup-put t q j c.tickets, holds-owner p q, own refl);
        entries = All-put (IsEntry owner c) t j c.tickets (refl, sym (own refl), joined) s.entries;
      }

  leave_known-Synced : (o t : ℕ) → Synced owner (leave_known o t (lookup t c.tickets) c).1
  unfolding is_in leave_known
  leave_known-Synced o t = elim (Option-cases (lookup t c.tickets)) [
    | inl e ↦ rw (e, leave_known) s
    | inr (j, e) ↦ elim (Bool-cases (j.organization_id == o)) [
      | inr f ↦ rw (e, leave_known) (rw f s)
      | inl f ↦
          rw (e, leave_known)
            (rw f (record {
              users = λ u. s.users u;
              organizations = λ p. s.organizations p;
              tickets = λ p q. ground (arith, s.tickets p q, lookup-remove t q c.tickets, f, e);
              entries = All-remove (IsEntry owner c) t c.tickets s.entries;
            }))
    ]
  ]

module _ (owner : ℕ → ℕ) (w w' : State) (owned : Owned owner w') where
  join_readable-Synced :
      (o t : ℕ) (c : Client)
      → Synced owner c
      → is_none (lookup o c.tenants) ≡ false
      → (r : Option TenantContext) → r ≡ tenant_at w c.user_id o
      → Synced owner (join_readable w' (λ d. d) o t r c).1
  unfolding join_readable
  join_readable-Synced o t c s joined none from = forget-Synced owner o c s
  join_readable-Synced o t c s joined (some tenant) from =
      let org : tenant.organization_id ≡ o = tenant_at-organization w c.user_id o (sym from) in
      let s' : Synced owner (record c { tenants = put o tenant c.tenants }) =
        refreshed-Synced owner c s o tenant joined in
      elim (Bool-cases (has_permission tenant.role tickets_read)) [
        | inr e ↦ rw e s'
        | inl e ↦ rw e (
            join_existing-Synced owner _ s' (exists_at w' tenant.organization_id t)
              tenant.organization_id t
              (ground (arith, org, lookup-put o tenant.organization_id tenant c.tenants))
              (exists_at-owner owner w' tenant.organization_id t owned))
      ]

  join_ticket-Synced :
      (o t : ℕ) (c : Client)
      → Synced owner c
      → Synced owner (join_ticket w w' (λ d. d) (λ d. d) (some o) (some t) c).1
  unfolding join_ticket
  join_ticket-Synced o t c s = elim (Option-cases (lookup o c.tenants)) [
    | inl e ↦ rw (join_ticket, e) s
    | inr (cached, e) ↦
        rw (join_ticket, e)
          (join_readable-Synced o t c s (rw e refl) (tenant_at w c.user_id o) refl)
  ]

  leave_organization-Synced :
      (o : ℕ) (c : Client) → Synced owner c → Synced owner (leave_organization (some o) c).1
  unfolding leave_organization
  leave_organization-Synced o c s = elim (Option-cases (lookup o c.tenants)) [
    | inl e ↦ rw (leave_organization, e) s
    | inr (cached, e) ↦
        let f : Synced owner (forget_organization o c) = forget-Synced owner o c s in
        rw (leave_organization, e)
          (record {
            users = f.users;
            organizations = f.organizations;
            tickets = f.tickets;
            entries = f.entries;
          })
  ]

  pub serve-Synced : (m : Message) (c : Client) → Synced owner c → Synced owner (serve w w' m c).1
  unfolding serve join_organization join_ticket leave_organization leave_ticket
  serve-Synced (to_join_organization none) c s = s
  serve-Synced (to_join_organization (some o)) c s =
      join_resolved-Synced owner c s (tenant_at w c.user_id o)
  serve-Synced (to_leave_organization none) c s = s
  serve-Synced (to_leave_organization (some o)) c s = leave_organization-Synced o c s
  serve-Synced (to_join_ticket none t) c s = s
  serve-Synced (to_join_ticket (some o) none) c s = s
  serve-Synced (to_join_ticket (some o) (some t)) c s = join_ticket-Synced o t c s
  serve-Synced (to_leave_ticket none t) c s = s
  serve-Synced (to_leave_ticket (some o) none) c s = s
  serve-Synced (to_leave_ticket (some o) (some t)) c s = leave_known-Synced owner c s o t
