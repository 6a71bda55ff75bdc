-- ===== src/Realtime/Runs.antt =====
-- Sequences of messages: the rooms of a socket as its specification gives them, and what allowed
-- each of them.
use opsdesk.Base.{
  Bool-cases, Option-cases, ◌==◌, any, is_none, ℕ, ◌≡◌, refl, ap, ◌∙◌, ◌⊎◌, inl, inr, Bool, true,
  false, not, Option, none, some, List, [], ◌∷◌, arith, nat_eq,
}
use mathlib.Core.Path.{fun_ext}
use opsdesk.Rbac.{tickets_read, has_permission}
use opsdesk.State.{State, TenantContext}
use opsdesk.Realtime.Messages.{
  Owned, serve, Message, Synced, to_join_organization, to_join_ticket, to_leave_organization,
  to_leave_ticket,
}
use opsdesk.Realtime.Rooms.{Room, room_eq, user_room, organization_room, ticket_room, lookup}
use opsdesk.Deliveries.Events.{allowed}
use opsdesk.Realtime.{
  Client, JoinedTicket, exists_at, join_existing, join_organization, join_readable, join_resolved,
  join_ticket, leave_known, leave_organization, leave_ticket, tenant_at,
}
use opsdesk.Realtime.Forgetting.{forget-user}
use opsdesk.Realtime.Refinement.{
  run, Rooms, Turn, may_read, rooms_of, run_specified, serve-specified, specified,
}
use opsdesk.Realtime.Subscriptions.{serve-Synced}

join_resolved-user :
    (t : Option TenantContext) (c : Client) → (join_resolved t c).1.user_id ≡ c.user_id
unfolding join_resolved
join_resolved-user none c = refl
join_resolved-user (some t) c = refl

leave_organization-user :
    (o : ℕ) (c : Client) → (leave_organization (some o) c).1.user_id ≡ c.user_id
unfolding leave_organization
leave_organization-user o c = elim (Option-cases (lookup o c.tenants)) [
  | inl e ↦ rw (leave_organization, e) refl
  | inr (t, e) ↦ rw (leave_organization, e) (forget-user o c)
]

join_existing-user :
    (b : Bool) (o t : ℕ) (c : Client) → (join_existing b o t c).1.user_id ≡ c.user_id
unfolding join_existing
join_existing-user false o t c = refl
join_existing-user true o t c = refl

join_readable-user :
    (w' : State) (o t : ℕ) (m : Option TenantContext) (c : Client)
    → (join_readable w' (λ d. d) o t m c).1.user_id ≡ c.user_id
unfolding join_readable
join_readable-user w' o t none c = forget-user o c
join_readable-user w' o t (some m) c = elim (Bool-cases (has_permission m.role tickets_read)) [
  | inr e ↦ rw e refl
  | inl e ↦ rw e (join_existing-user (exists_at w' m.organization_id t) m.organization_id t _)
]

join_ticket-user :
    (w w' : State) (o t : ℕ) (c : Client)
    → (join_ticket w w' (λ d. d) (λ d. d) (some o) (some t) c).1.user_id ≡ c.user_id
unfolding join_ticket
join_ticket-user w w' o t c = elim (Option-cases (lookup o c.tenants)) [
  | inl e ↦ rw (join_ticket, e) refl
  | inr (m, e) ↦ rw (join_ticket, e) (join_readable-user w' o t (tenant_at w c.user_id o) c)
]

leave_known-user :
    (o t : ℕ) (j : Option JoinedTicket) (c : Client) → (leave_known o t j c).1.user_id ≡ c.user_id
unfolding leave_known
leave_known-user o t none c = refl
leave_known-user o t (some j) c = ground arith

serve-user : (w w' : State) (m : Message) (c : Client) → (serve w w' m c).1.user_id ≡ c.user_id
unfolding serve join_organization leave_organization join_ticket leave_ticket
serve-user w w' (to_join_organization none) c = refl
serve-user w w' (to_join_organization (some o)) c = join_resolved-user (tenant_at w c.user_id o) c
serve-user w w' (to_leave_organization none) c = refl
serve-user w w' (to_leave_organization (some o)) c = leave_organization-user o c
serve-user w w' (to_join_ticket none t) c = refl
serve-user w w' (to_join_ticket (some o) none) c = refl
serve-user w w' (to_join_ticket (some o) (some t)) c = join_ticket-user w w' o t c
serve-user w w' (to_leave_ticket none t) c = refl
serve-user w w' (to_leave_ticket (some o) none) c = refl
serve-user w w' (to_leave_ticket (some o) (some t)) c = leave_known-user o t (lookup t c.tickets) c

-- In every database that a turn reads, the tickets are those of their organizations.
abbrev pub AllOwned : (ℕ → ℕ) → List Turn → Type 0
AllOwned owner [] = Unit
AllOwned owner ((w, w', m) ∷ rest) = Owned owner w' × AllOwned owner rest

pub run-Synced :
    (owner : ℕ → ℕ) (turns : List Turn) (c : Client)
    → AllOwned owner turns
    → Synced owner c
    → Synced owner (run turns c)
unfolding run
run-Synced owner [] c a s = s
run-Synced owner ((w, w', m) ∷ rest) c a s =
    run-Synced owner rest (serve w w' m c).1 a.1 (serve-Synced owner w w' a.0 m c s)

-- The rooms that a socket is in after any sequence of messages are those that the specification
-- gives, which does not know `client.data`: where each ticket stays in its organization.
pub run-specified :
    (owner : ℕ → ℕ) (turns : List Turn) (c : Client)
    → AllOwned owner turns
    → Synced owner c
    → rooms_of (run turns c) ≡ run_specified turns c.user_id (rooms_of c)
unfolding run run_specified
run-specified owner [] c a s = refl
run-specified owner ((w, w', m) ∷ rest) c a s =
    let c' = (serve w w' m c).1 in
    run-specified owner rest c' a.1 (serve-Synced owner w w' a.0 m c s)
    ∙ rw (serve-user w w' m c)
        (ap (run_specified rest c.user_id) (fun_ext (λ r. serve-specified owner w w' c s r m)))

abbrev pub reads : State → ℕ → ℕ → Option TenantContext → Bool
reads w' o t none = false
reads w' o t (some tenant) = may_read w' o t tenant

-- what allows a room: one of the turns found the membership, and for a ticket the permission and
-- the ticket
abbrev pub allows : ℕ → Room → Turn → Bool
allows u (user_room v) (w, w', m) = u == v
allows u (organization_room o) (w, w', m) = not (is_none (tenant_at w u o))
allows u (ticket_room o t) (w, w', m) = elim (tenant_at w u o) [
  | none ↦ false
  | some tenant ↦ may_read w' o t tenant
]

specified-allowed :
    (x : Turn) (u : ℕ) (rooms : Rooms) (r : Room)
    → specified x u rooms r ≡ true
    → (rooms r ≡ true) ⊎ (allows u r x ≡ true)
unfolding specified
specified-allowed (w, w', to_join_organization none) u rooms r h = inl h
specified-allowed (w, w', to_join_organization (some o)) u rooms r h =
    elim (Option-cases (tenant_at w u o)) [
      | inl e ↦ inl (rw e at h)
      | inr (t, e) ↦ elim (Bool-cases (organization_room o == r)) [
        | inl f ↦ inr (rw (← (room_eq.beq_iff (organization_room o) r).0 f) (rw e refl))
        | inr f ↦ inl (rw f at (rw e at h))
      ]
    ]
specified-allowed (w, w', to_leave_organization none) u rooms r h = inl h
specified-allowed (w, w', to_leave_organization (some o)) u rooms r h = inl (ground (arith, h))
specified-allowed (w, w', to_join_ticket none t) u rooms r h = inl h
specified-allowed (w, w', to_join_ticket (some o) none) u rooms r h = inl h
specified-allowed (w, w', to_join_ticket (some o) (some t)) u rooms r h =
    elim (Bool-cases (rooms (organization_room o))) [
      | inr e ↦ inl (rw e at h)
      | inl e ↦ elim (Option-cases (tenant_at w u o)) [
        | inl f ↦ inl (ground (arith, rw f at (rw e at h)))
        | inr (m, f) ↦ elim (Bool-cases (may_read w' o t m)) [
          | inr g ↦ inl (rw g at (rw f at (rw e at h)))
          | inl g ↦ elim (Bool-cases (ticket_room o t == r)) [
            | inl k ↦
                inr (rw (← (room_eq.beq_iff (ticket_room o t) r).0 k) (ap (reads w' o t) f ∙ g))
            | inr k ↦ inl (rw k at (rw g at (rw f at (rw e at h))))
          ]
        ]
      ]
    ]
specified-allowed (w, w', to_leave_ticket none t) u rooms r h = inl h
specified-allowed (w, w', to_leave_ticket (some o) none) u rooms r h = inl h
specified-allowed (w, w', to_leave_ticket (some o) (some t)) u rooms r h = inl (ground (arith, h))

pub run-allowed :
    (turns : List Turn) (u : ℕ) (rooms : Rooms) (r : Room)
    → run_specified turns u rooms r ≡ true
    → (rooms r ≡ true) ⊎ (any (allows u r) turns ≡ true)
unfolding run_specified
run-allowed [] u rooms r h = inl h
run-allowed (x ∷ rest) u rooms r h = elim (run-allowed rest u (specified x u rooms) r h) [
  | inr later ↦ inr (ground (arith, later))
  | inl now ↦ elim (specified-allowed x u rooms r now) [
    | inl before ↦ inl before
    | inr allowed ↦ inr (rw allowed refl)
  ]
]
