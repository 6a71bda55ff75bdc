-- ===== src/Realtime/Forgetting.antt =====
-- What is left of an organization when a socket left it: no room, no ticket, no tenant.
use opsdesk.Base.{
  if◌then◌else◌, Bool-cases, Option-cases, ◌==◌, All, All-both, ℕ, ◌≡◌, ◌∙◌, inl, inr, false, none,
  List, [], ◌∷◌, arith, nat_eq,
}
use opsdesk.Realtime.Rooms.{
  room_eq, user_room, organization_room, ticket_room, is_in, lookup, lookup-remove, All-lookup,
  All-IsPresent, All-remove, IsPresent,
}
use opsdesk.Realtime.{Client, JoinedTicket, leave_each, leave_matching, forget_organization}
use opsdesk.Realtime.Messages.{IsEntry, Synced, holds}
use opsdesk.Realtime.Leaving.{
  leave_each-rooms, leave_each-tenants, leave_each-tickets, leave_each-user, leaves_other,
  leaves_ticket, meets-holds,
}

module _ (owner : ℕ → ℕ) (o : ℕ) {c : Client} (s : Synced owner c) where
  -- After leaving an organization the socket is in no room of it, and in the others as before.
  pub forget-organizations :
      (p : ℕ)
      → is_in (organization_room p) (forget_organization o c).calls
        ≡ (if o == p then false else is_in (organization_room p) c.calls)
  unfolding forget_organization is_in
  forget-organizations p =
      ground (
        arith,
        leave_each-rooms o c.tickets c (organization_room p),
        (leaves_other o c.tickets).1 p,
      )

  pub forget-users :
      (u : ℕ) → is_in (user_room u) (forget_organization o c).calls ≡ is_in (user_room u) c.calls
  unfolding forget_organization is_in
  forget-users u =
      ground (arith, leave_each-rooms o c.tickets c (user_room u), (leaves_other o c.tickets).0 u)

  pub forget-tickets :
      (p t : ℕ)
      → is_in (ticket_room p t) (forget_organization o c).calls
        ≡ (if o == p then false else is_in (ticket_room p t) c.calls)
  unfolding forget_organization is_in
  forget-tickets p t = ground (
    arith,
    leave_each-rooms o c.tickets c (ticket_room p t),
    leaves_ticket o p t c.tickets,
    meets-holds owner c o t c.tickets s.entries,
    s.tickets o t,
    s.tickets p t,
  )

  pub forget-entries :
      (t : ℕ)
      → lookup t (forget_organization o c).tickets
        ≡ (if holds o (lookup t c.tickets) then none else lookup t c.tickets)
  unfolding forget_organization
  forget-entries t =
      ground
        (arith, leave_each-tickets o c.tickets c t, meets-holds owner c o t c.tickets s.entries)

  pub forget-tenants :
      (p : ℕ)
      → lookup p (forget_organization o c).tenants ≡ (if o == p then none else lookup p c.tenants)
  unfolding forget_organization
  forget-tenants p = rw (leave_each-tenants o c.tickets c) (lookup-remove o p c.tenants)

pub forget-user : (o : ℕ) (c : Client) → (forget_organization o c).user_id ≡ c.user_id
unfolding forget_organization
forget-user o c = leave_each-user o c.tickets c

-- Entries that remain are of other organizations.
module _ (owner : ℕ → ℕ) (o : ℕ) where
  leave_each-All :
      (P : ℕ × JoinedTicket → Type 0) (m : List (ℕ × JoinedTicket)) (c : Client)
      → All P c.tickets
      → All P (leave_each o m c).tickets
  unfolding leave_each leave_matching
  leave_each-All P [] c a = a
  leave_each-All P ((k, j) ∷ rest) c a = elim (Bool-cases (j.organization_id == o)) [
    | inl e ↦
        leave_each-All P rest (leave_matching o j c)
          (rw (e, leave_matching) (All-remove P j.ticket_id c.tickets a))
    | inr e ↦ leave_each-All P rest (leave_matching o j c) (rw (e, leave_matching) a)
  ]

  forget-All :
      (c : Client)
      → All (IsEntry owner c) c.tickets
      → All (IsEntry owner c) (forget_organization o c).tickets
  unfolding forget_organization
  forget-All c a = leave_each-All (IsEntry owner c) c.tickets c a

  still-IsEntry :
      {c : Client} (s : Synced owner c) (e : ℕ × JoinedTicket)
      → IsEntry owner c e
      → IsPresent (forget_organization o c).tickets e
      → IsEntry owner (forget_organization o c) e
  still-IsEntry {c} s (k, j) old here = elim (Option-cases (lookup k c.tickets)) [
    | inl gone ↦ absurd (ground (arith, forget-entries owner o s k, gone, here))
    | inr (j', at) ↦
        let org : j'.organization_id ≡ owner k =
          (All-lookup (IsEntry owner c) k c.tickets s.entries at).1 in
        (
          old.0,
          old.1,
          ground (
            arith,
            forget-entries owner o s k,
            at,
            org,
            old.1,
            old.2,
            here,
            forget-tenants owner o s j.organization_id,
          ),
        )
  ]

  pub forget-Synced : (c : Client) → Synced owner c → Synced owner (forget_organization o c)
  forget-Synced c s = record {
    users = λ u. forget-users owner o s u ∙ s.users u ∙ rw (forget-user o c);
    organizations = λ p.
        ground
          (arith, forget-organizations owner o s p, forget-tenants owner o s p, s.organizations p);
    tickets = λ p t.
        ground (arith, forget-tickets owner o s p t, forget-entries owner o s t, s.tickets p t);
    entries =
        All-both (IsEntry owner c) (IsPresent (forget_organization o c).tickets)
          (IsEntry owner (forget_organization o c)) _ (still-IsEntry s) (forget-All c s.entries)
          (All-IsPresent _);
  }
