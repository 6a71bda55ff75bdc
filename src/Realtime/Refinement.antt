-- ===== src/Realtime/Refinement.antt =====
-- The rooms of a socket, specified without `client.data`: what each message does to them.
use opsdesk.Base.{
  if◌then◌else◌, Bool-cases, Option-cases, ◌==◌, is_none, ℕ, ◌≡◌, refl, sym, inl, inr, Bool, true,
  false, ◌&&◌, Option, none, some, List, [], ◌∷◌, nat_eq,
}
use opsdesk.Realtime.Messages.{
  serve, Message, Synced, to_join_organization, to_join_ticket, to_leave_organization,
  to_leave_ticket,
}
use opsdesk.Rbac.{tickets_read, has_permission}
use opsdesk.State.{State, TenantContext}
use opsdesk.Realtime.Rooms.{Room, room_eq, user_room, organization_room, ticket_room, is_in, lookup}
use opsdesk.Realtime.{
  Client, exists_at, forget_organization, join_existing, join_organization, join_readable,
  join_resolved, join_ticket, leave_organization, tenant_at, leave_known, leave_ticket,
}
use opsdesk.Realtime.Forgetting.{forget-organizations, forget-tickets, forget-users}
use opsdesk.Realtime.Subscriptions.{tenant_at-organization}

-- the sequence of messages, each with the database at its two queries
abbrev pub Turn : Type 0
Turn = State × State × Message

unfoldable pub run : List Turn → Client → Client
run [] c = c
run ((w, w', m) ∷ rest) c = run rest (serve w w' m c).1

abbrev pub Rooms : Type 0
Rooms = Room → Bool

-- whether a room is the organization's or of one of its tickets
abbrev pub of_organization : ℕ → Room → Bool
of_organization o (user_room u) = false
of_organization o (organization_room p) = o == p
of_organization o (ticket_room p t) = o == p

abbrev pub without : ℕ → Rooms → Rooms
without o rooms r = if of_organization o r then false else rooms r

abbrev pub with_room : Room → Rooms → Rooms
with_room x rooms r = if x == r then true else rooms r

-- the tenant at the first query, if its role may read tickets and the ticket is there at the second
abbrev pub may_read : State → ℕ → ℕ → TenantContext → Bool
may_read w' o t tenant = has_permission tenant.role tickets_read && exists_at w' o t

-- A joined ticket needs its organization, and a membership that is gone costs all rooms of it.
abbrev enter_ticket : State → ℕ → ℕ → Option TenantContext → Rooms → Rooms
enter_ticket w' o t none rooms = without o rooms
enter_ticket w' o t (some tenant) rooms =
    if may_read w' o t tenant then with_room (ticket_room o t) rooms else rooms

unfoldable pub specified : Turn → ℕ → Rooms → Rooms
specified (w, w', to_join_organization (some o)) u rooms =
    if is_none (tenant_at w u o) then rooms else with_room (organization_room o) rooms
specified (w, w', to_leave_organization (some o)) u rooms =
    if rooms (organization_room o) then without o rooms else rooms
specified (w, w', to_join_ticket (some o) (some t)) u rooms =
    if rooms (organization_room o) then enter_ticket w' o t (tenant_at w u o) rooms else rooms
specified (w, w', to_leave_ticket (some o) (some t)) u rooms =
    λ r. if ticket_room o t == r then false else rooms r
specified _ u rooms = rooms

unfoldable pub run_specified : List Turn → ℕ → Rooms → Rooms
run_specified [] u rooms = rooms
run_specified (x ∷ rest) u rooms = run_specified rest u (specified x u rooms)

abbrev pub rooms_of : Client → Rooms
rooms_of c r = is_in r c.calls

forget-without :
    (owner : ℕ → ℕ) (o : ℕ) (c : Client) (s : Synced owner c) (r : Room)
    → rooms_of (forget_organization o c) r ≡ without o (rooms_of c) r
forget-without owner o c s (user_room u) = forget-users owner o s u
forget-without owner o c s (organization_room p) = forget-organizations owner o s p
forget-without owner o c s (ticket_room p t) = forget-tickets owner o s p t

module _ (owner : ℕ → ℕ) (w w' : State) (c : Client) (s : Synced owner c) (r : Room) where
  join_organization-specified :
      (o : ℕ)
      → rooms_of (serve w w' (to_join_organization (some o)) c).1 r
        ≡ specified (w, w', to_join_organization (some o)) c.user_id (rooms_of c) r
  unfolding serve join_organization join_resolved specified is_in
  join_organization-specified o = elim (Option-cases (tenant_at w c.user_id o)) [
    | inl e ↦ rw (e, join_resolved) refl
    | inr (t, e) ↦ rw (e, join_resolved) (rw (tenant_at-organization w c.user_id o e) refl)
  ]

  leave_organization-specified :
      (o : ℕ)
      → rooms_of (serve w w' (to_leave_organization (some o)) c).1 r
        ≡ specified (w, w', to_leave_organization (some o)) c.user_id (rooms_of c) r
  unfolding serve leave_organization specified
  leave_organization-specified o = elim (Option-cases (lookup o c.tenants)) [
    | inl e ↦ rw (leave_organization, e) (rw (s.organizations o) (rw e refl))
    | inr (t, e) ↦
        rw (leave_organization, e) (rw (s.organizations o) (rw e (forget-without owner o c s r)))
  ]

  join_readable-specified :
      (o t : ℕ) (m : Option TenantContext)
      → m ≡ tenant_at w c.user_id o
      → rooms_of (join_readable w' (λ d. d) o t m c).1 r ≡ enter_ticket w' o t m (rooms_of c) r
  unfolding join_readable join_existing is_in
  join_readable-specified o t none from = forget-without owner o c s r
  join_readable-specified o t (some m) from =
      let org : m.organization_id ≡ o = tenant_at-organization w c.user_id o (sym from) in
      rw org (elim (Bool-cases (has_permission m.role tickets_read)) [
        | inr e ↦ rw e refl
        | inl e ↦ elim (Bool-cases (exists_at w' o t)) [
          | inl f ↦ rw (e, f, join_existing) refl
          | inr f ↦ rw (e, f, join_existing) refl
        ]
      ])

  join_ticket-specified :
      (o t : ℕ)
      → rooms_of (serve w w' (to_join_ticket (some o) (some t)) c).1 r
        ≡ specified (w, w', to_join_ticket (some o) (some t)) c.user_id (rooms_of c) r
  unfolding serve join_ticket specified
  join_ticket-specified o t = elim (Option-cases (lookup o c.tenants)) [
    | inl e ↦ rw (join_ticket, e) (rw (s.organizations o) (rw e refl))
    | inr (cached, e) ↦
        rw (join_ticket, e)
          (rw (s.organizations o)
            (rw e (join_readable-specified o t (tenant_at w c.user_id o) refl)))
  ]

  leave_known-specified :
      (o t : ℕ)
      → rooms_of (leave_known o t (lookup t c.tickets) c).1 r
        ≡ specified (w, w', to_leave_ticket (some o) (some t)) c.user_id (rooms_of c) r
  unfolding leave_known specified is_in
  leave_known-specified o t = elim (Option-cases (lookup t c.tickets)) [
    | inl e ↦
        rw (e, leave_known)
          (elim (Bool-cases (ticket_room o t == r)) [
            | inr g ↦ rw g refl
            | inl g ↦
                rw (g, ← (room_eq.beq_iff (ticket_room o t) r).0 g) (rw (s.tickets o t) (rw e refl))
          ])
    | inr (j, e) ↦ elim (Bool-cases (j.organization_id == o)) [
      | inl f ↦ rw (e, leave_known) (rw f refl)
      | inr f ↦
          rw (e, leave_known)
            (rw f (elim (Bool-cases (ticket_room o t == r)) [
              | inr g ↦ rw g refl
              | inl g ↦
                  rw (g, ← (room_eq.beq_iff (ticket_room o t) r).0 g)
                    (rw (s.tickets o t) (rw e (rw f refl)))
            ]))
    ]
  ]

  pub serve-specified :
      (m : Message) → rooms_of (serve w w' m c).1 r ≡ specified (w, w', m) c.user_id (rooms_of c) r
  unfolding serve join_organization leave_organization join_ticket leave_ticket specified
  serve-specified (to_join_organization none) = refl
  serve-specified (to_join_organization (some o)) = join_organization-specified o
  serve-specified (to_leave_organization none) = refl
  serve-specified (to_leave_organization (some o)) = leave_organization-specified o
  serve-specified (to_join_ticket none t) = refl
  serve-specified (to_join_ticket (some o) none) = refl
  serve-specified (to_join_ticket (some o) (some t)) = join_ticket-specified o t
  serve-specified (to_leave_ticket none t) = refl
  serve-specified (to_leave_ticket (some o) none) = refl
  serve-specified (to_leave_ticket (some o) (some t)) = leave_known-specified o t
