-- ===== src/Realtime/Parting.antt =====
-- A user who is taken out of an organization hears no more of it.
use opsdesk.Base.{
  Bool-cases, Option-cases, ℕ, ◌≡◌, refl, ◌∙◌, inl, inr, true, false, none, some, List, arith,
}
use opsdesk.State.{Published, State}
use opsdesk.Realtime.Messages.{
  serve, connect-Synced, IsEntry, Synced, to_join_ticket, to_leave_organization, Message,
  to_join_organization, to_leave_ticket,
}
use opsdesk.Realtime.Rooms.{
  Room, room_eq, organization_room, ticket_room, All-lookup, lookup, user_room,
}
use opsdesk.Realtime.{Client, tenant_at, connect}
use opsdesk.Realtime.Refinement.{run, Turn, rooms_of, of_organization, serve-specified, specified}
use opsdesk.Realtime.Runs.{AllOwned, run-Synced}
use opsdesk.Realtime.Delivery.{audience, organization_of, receives}

-- where an organization is not joined, none of its tickets is
not_joined :
    (owner : ℕ → ℕ) (c : Client) (s : Synced owner c) (o : ℕ)
    → rooms_of c (organization_room o) ≡ false
    → (r : Room) → of_organization o r ≡ true
    → rooms_of c r ≡ false
not_joined owner c s o e (user_room u) h = absurd (ground (arith, h))
not_joined owner c s o e (organization_room p) h = ground (arith, e, h)
not_joined owner c s o e (ticket_room p t) h =
    s.tickets p t ∙ (elim (Option-cases (lookup t c.tickets)) [
      | inl f ↦ rw f refl
      | inr (j, f) ↦ rw f (
          ground (
            arith,
            h,
            e,
            s.organizations o,
            (All-lookup (IsEntry owner c) t c.tickets s.entries f).2,
          ))
    ])

-- a socket that is in no room of an organization hears no event of it
outside_hears_nothing :
    (o : ℕ) (c : Client)
    → ((r : Room) → of_organization o r ≡ true → rooms_of c r ≡ false)
    → (e : Published) → organization_of e ≡ o
    → receives c e ≡ false
unfolding audience
outside_hears_nothing o c out (Published.ticket_created p t) h =
    ground (arith, h, out (organization_room p))
outside_hears_nothing o c out (Published.ticket_updated p t) h =
    ground (arith, h, out (organization_room p), out (ticket_room p t))
outside_hears_nothing o c out (Published.message_created p t m) h =
    ground (arith, h, out (organization_room p), out (ticket_room p t))
outside_hears_nothing o c out (Published.email_delivery_updated p t m d st) h =
    ground (arith, h, out (ticket_room p t))

module _ (owner : ℕ → ℕ) (w w' : State) (c : Client) (s : Synced owner c) where
  left_outside :
      (o : ℕ) (r : Room)
      → of_organization o r ≡ true
      → rooms_of (serve w w' (to_leave_organization (some o)) c).1 r ≡ false
  unfolding specified
  left_outside o r h =
      serve-specified owner w w' c s r (to_leave_organization (some o))
      ∙ elim (Bool-cases (rooms_of c (organization_room o))) [
        | inl e ↦ rw (e, h) refl
        | inr e ↦ rw e (not_joined owner c s o e r h)
      ]

  expelled_outside :
      (o t : ℕ)
      → tenant_at w c.user_id o ≡ none
      → (r : Room) → of_organization o r ≡ true
      → rooms_of (serve w w' (to_join_ticket (some o) (some t)) c).1 r ≡ false
  unfolding specified
  expelled_outside o t gone r h =
      serve-specified owner w w' c s r (to_join_ticket (some o) (some t))
      ∙ elim (Bool-cases (rooms_of c (organization_room o))) [
        | inl e ↦ rw (e, gone, h) refl
        | inr e ↦ rw e (not_joined owner c s o e r h)
      ]

-- a message that takes a user out of an organization: it leaves, or it asks for a ticket when the
-- membership is gone
abbrev pub TakesOut : State → (u o : ℕ) → Message → Type 0
TakesOut w u o (to_leave_organization (some p)) = p ≡ o
TakesOut w u o (to_join_ticket (some p) (some t)) = (p ≡ o) × (tenant_at w u o ≡ none)
TakesOut w u o _ = ⊥

taken_outside :
    (owner : ℕ → ℕ) (w w' : State) (c : Client)
    → Synced owner c
    → (o : ℕ) (m : Message) → TakesOut w c.user_id o m
    → (r : Room) → of_organization o r ≡ true
    → rooms_of (serve w w' m c).1 r ≡ false
taken_outside owner w w' c s o (to_leave_organization none) h r b = absurd h
taken_outside owner w w' c s o (to_leave_organization (some p)) h r b =
    left_outside owner w w' c s p r (rw h b)
taken_outside owner w w' c s o (to_join_ticket (some p) (some t)) h r b =
    expelled_outside owner w w' c s p t (rw h.0 h.1) r (rw h.0 b)
taken_outside owner w w' c s o (to_join_ticket none t) h r b = absurd h
taken_outside owner w w' c s o (to_join_ticket (some p) none) h r b = absurd h
taken_outside owner w w' c s o (to_join_organization p) h r b = absurd h
taken_outside owner w w' c s o (to_leave_ticket p t) h r b = absurd h

-- A socket that left an organization after any sequence of messages hears none of its events, and
-- neither does one that asked for a ticket of an organization in which its user's membership is
-- gone, where each ticket stays in its organization.
pub left_hears_nothing :
    (owner : ℕ → ℕ) (turns : List Turn) (u : ℕ)
    → AllOwned owner turns
    → (w w' : State) (e : Published) (m : Message)
    → TakesOut w (run turns (connect u)).user_id (organization_of e) m
    → receives (serve w w' m (run turns (connect u))).1 e ≡ false
left_hears_nothing owner turns u a w w' e m h =
    let c = run turns (connect u) in
    let s : Synced owner c = run-Synced owner turns (connect u) a (connect-Synced owner u) in
    outside_hears_nothing (organization_of e) (serve w w' m c).1
      (taken_outside owner w w' c s (organization_of e) m h) e refl
