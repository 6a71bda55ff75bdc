-- ===== src/Realtime/Leaving.antt =====
-- What leaving an organization does to a socket: `leaveAllOrganizationTickets` and what follows it.
use opsdesk.Base.{
  if◌then◌else◌, nat_beq_iff, Bool-cases, ◌==◌, any, All, ℕ, ◌≡◌, refl, ◌∙◌, inl, inr, Bool, true,
  false, ◌&&◌, none, List, [], ◌∷◌, arith, nat_eq,
}
use opsdesk.Realtime.Rooms.{
  room_eq, user_room, organization_room, ticket_room, is_in, lookup, lookup-remove, Room,
}
use opsdesk.Realtime.{Client, JoinedTicket, leave_each, leave_matching}
use opsdesk.Realtime.Messages.{IsEntry, holds}

-- the loop meets the ticket
abbrev pub meets : ℕ → ℕ → List (ℕ × JoinedTicket) → Bool
meets o t m = any (λ e. (e.1.organization_id == o) && (e.1.ticket_id == t)) m

module _ (o : ℕ) where
  leave_matching-user : (t : JoinedTicket) (c : Client) → (leave_matching o t c).user_id ≡ c.user_id
  unfolding leave_matching
  leave_matching-user t c = ground arith

  leave_matching-tenants :
      (t : JoinedTicket) (c : Client) → (leave_matching o t c).tenants ≡ c.tenants
  unfolding leave_matching
  leave_matching-tenants t c = ground arith

  leave_matching-rooms :
      (j : JoinedTicket) (c : Client) (r : Room)
      → is_in r (leave_matching o j c).calls ≡ (
          if (j.organization_id == o) && (ticket_room j.organization_id j.ticket_id == r)
          then false
          else is_in r c.calls)
  unfolding leave_matching is_in
  leave_matching-rooms j c r = ground arith

  leave_matching-tickets :
      (j : JoinedTicket) (c : Client) (t : ℕ)
      → lookup t (leave_matching o j c).tickets
        ≡ (if (j.organization_id == o) && (j.ticket_id == t) then none else lookup t c.tickets)
  unfolding leave_matching
  leave_matching-tickets j c t = ground (arith, lookup-remove j.ticket_id t c.tickets)

  pub leave_each-user :
      (m : List (ℕ × JoinedTicket)) (c : Client) → (leave_each o m c).user_id ≡ c.user_id
  unfolding leave_each
  leave_each-user [] c = refl
  leave_each-user ((k, t) ∷ rest) c = leave_each-user rest _ ∙ leave_matching-user t c

  pub leave_each-tenants :
      (m : List (ℕ × JoinedTicket)) (c : Client) → (leave_each o m c).tenants ≡ c.tenants
  unfolding leave_each
  leave_each-tenants [] c = refl
  leave_each-tenants ((k, t) ∷ rest) c = leave_each-tenants rest _ ∙ leave_matching-tenants t c

  -- a room is left if it is one of a ticket that the loop meets
  pub leaves : Room → List (ℕ × JoinedTicket) → Bool
  leaves r m =
      any (λ e. (e.1.organization_id == o) && (ticket_room e.1.organization_id e.1.ticket_id == r))
        m

  pub leave_each-rooms :
      (m : List (ℕ × JoinedTicket)) (c : Client) (r : Room)
      → is_in r (leave_each o m c).calls ≡ (if leaves r m then false else is_in r c.calls)
  unfolding leave_each leaves
  leave_each-rooms [] c r = refl
  leave_each-rooms ((k, j) ∷ rest) c r =
      ground (arith, leave_each-rooms rest (leave_matching o j c) r, leave_matching-rooms j c r)

  pub leave_each-tickets :
      (m : List (ℕ × JoinedTicket)) (c : Client) (t : ℕ)
      → lookup t (leave_each o m c).tickets ≡ (if meets o t m then none else lookup t c.tickets)
  unfolding leave_each
  leave_each-tickets [] c t = refl
  leave_each-tickets ((k, j) ∷ rest) c t =
      ground (arith, leave_each-tickets rest (leave_matching o j c) t, leave_matching-tickets j c t)

  pub leaves_ticket :
      (p t : ℕ) (m : List (ℕ × JoinedTicket))
      → leaves (ticket_room p t) m ≡ ((p == o) && meets o t m)
  unfolding leaves
  leaves_ticket p t [] = ground arith
  leaves_ticket p t ((k, j) ∷ rest) = ground (arith, leaves_ticket p t rest)

  pub leaves_other :
      (m : List (ℕ × JoinedTicket))
      → ((u : ℕ) → leaves (user_room u) m ≡ false)
        × ((p : ℕ) → leaves (organization_room p) m ≡ false)
  unfolding leaves
  leaves_other [] = (λ u. refl, λ p. refl)
  leaves_other ((k, j) ∷ rest) =
      (λ u. ground (arith, (leaves_other rest).0 u), λ p. ground (arith, (leaves_other rest).1 p))

-- An organization without the ticket has no entry of it.
meets_foreign :
    (owner : ℕ → ℕ) (d : Client) (o t : ℕ) (m : List (ℕ × JoinedTicket))
    → All (IsEntry owner d) m
    → (owner t == o) ≡ false
    → meets o t m ≡ false
meets_foreign owner d o t [] a h = refl
meets_foreign owner d o t ((k, j) ∷ rest) a h =
    let here : (j.ticket_id == t) ≡ true → (j.organization_id == o) ≡ false =
      λ e. rw a.0.1 (rw (← a.0.0) (rw ((nat_beq_iff j.ticket_id t).0 e) h)) in
    ground (arith, here, meets_foreign owner d o t rest a.1 h)

-- The loop meets exactly the tickets whose entry is of the organization.
pub meets-holds :
    (owner : ℕ → ℕ) (d : Client) (o t : ℕ) (m : List (ℕ × JoinedTicket))
    → All (IsEntry owner d) m
    → meets o t m ≡ holds o (lookup t m)
unfolding lookup
meets-holds owner d o t [] a = refl
meets-holds owner d o t ((k, j) ∷ rest) a =
    let same : j.ticket_id ≡ k = a.0.0 in
    let org : j.organization_id ≡ owner k = a.0.1 in
    elim (Bool-cases (k == t)) [
      | inl e ↦
          let at : k ≡ t = (nat_beq_iff k t).0 e in
          elim (Bool-cases (j.organization_id == o)) [
            | inl f ↦ rw (e, f, same, e) refl
            | inr f ↦ rw (e, f) (meets_foreign owner d o t rest a.1 (rw (← at) (rw (← org) f)))
          ]
      | inr e ↦ rw (same, e) (ground (arith, meets-holds owner d o t rest a.1))
    ]
