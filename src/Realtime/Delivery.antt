-- ===== src/Realtime/Delivery.antt =====
-- What a socket hears: RealtimeService of apps/api/src/realtime/realtime.service.ts sends an event
-- to rooms, and a socket that is in one of them receives it.
use opsdesk.Base.{
  Bool-cases, Option-cases, any, is_none, ℕ, ◌≡◌, refl, sym, ap, subst, ◌∙◌, ◌⊎◌, inl, inr, Bool,
  true, not, List, [], ◌∷◌, arith,
}
use opsdesk.State.{Published}
use opsdesk.Realtime.Messages.{connect-Synced}
use opsdesk.Realtime.Rooms.{Room, room_eq, organization_room, ticket_room, is_in}
use opsdesk.Deliveries.Events.{allowed}
use opsdesk.Realtime.{Client, tenant_at, connect}
use opsdesk.Realtime.Refinement.{run, Rooms, Turn, rooms_of}
use opsdesk.Realtime.Runs.{AllOwned, allows, reads, run-allowed, run-specified}

-- the rooms that each `publish…` of RealtimeService names
unfoldable pub audience : Published → List Room
audience (Published.ticket_created o t) = organization_room o ∷ []
audience (Published.ticket_updated o t) = organization_room o ∷ ticket_room o t ∷ []
audience (Published.message_created o t m) = organization_room o ∷ ticket_room o t ∷ []
audience (Published.email_delivery_updated o t m d status) = ticket_room o t ∷ []

abbrev pub receives : Client → Published → Bool
receives c e = any (rooms_of c) (audience e)

abbrev pub organization_of : Published → ℕ
organization_of (Published.ticket_created o t) = o
organization_of (Published.ticket_updated o t) = o
organization_of (Published.message_created o t m) = o
organization_of (Published.email_delivery_updated o t m d status) = o

-- a turn in which the user was a member of the organization
abbrev pub is_member_in : ℕ → ℕ → Turn → Bool
is_member_in u o (w, w', m) = not (is_none (tenant_at w u o))

any_mono :
    (p q : Turn → Bool) (xs : List Turn)
    → ((x : Turn) → p x ≡ true → q x ≡ true)
    → any p xs ≡ true
    → any q xs ≡ true
any_mono p q [] f h = h
any_mono p q (x ∷ xs) f h = ground (arith, h, f x, any_mono p q xs f)

reads-member :
    (u o t : ℕ) (x : Turn) → allows u (ticket_room o t) x ≡ true → is_member_in u o x ≡ true
reads-member u o t (w, w', m) h = elim (Option-cases (tenant_at w u o)) [
  | inl e ↦ absurd (ground (arith, subst (λ z. reads w' o t z ≡ true) e h))
  | inr (k, e) ↦ rw e refl
]

either_room :
    (o t : ℕ) (rooms : Rooms) {P : Type 0}
    → any rooms (organization_room o ∷ ticket_room o t ∷ []) ≡ true
    → (rooms (organization_room o) ≡ true → P)
    → (rooms (ticket_room o t) ≡ true → P)
    → P
either_room o t rooms h f g = elim (Bool-cases (rooms (organization_room o))) [
  | inl e ↦ f e
  | inr e ↦ g (ground (arith, h, e))
]

module _ (owner : ℕ → ℕ) (turns : List Turn) (u : ℕ) (a : AllOwned owner turns) where
  room_allowed :
      (r : Room)
      → rooms_of (run turns (connect u)) r ≡ true
      → (rooms_of (connect u) r ≡ true) ⊎ (any (allows u r) turns ≡ true)
  unfolding connect
  room_allowed r h = run-allowed turns u (rooms_of (connect u)) r (
      sym
        (ap (λ (f : Rooms). f r) (run-specified owner turns (connect u) a (connect-Synced owner u)))
      ∙ h)

  organization_room-member :
      (o : ℕ)
      → rooms_of (run turns (connect u)) (organization_room o) ≡ true
      → any (is_member_in u o) turns ≡ true
  unfolding connect is_in
  organization_room-member o h = elim (room_allowed (organization_room o) h) [
    | inl start ↦ absurd (ground (arith, start))
    | inr allowed ↦ allowed
  ]

  ticket_room-member :
      (o t : ℕ)
      → rooms_of (run turns (connect u)) (ticket_room o t) ≡ true
      → any (is_member_in u o) turns ≡ true
  unfolding connect is_in
  ticket_room-member o t h = elim (room_allowed (ticket_room o t) h) [
    | inl start ↦ absurd (ground (arith, start))
    | inr allowed ↦
        any_mono (allows u (ticket_room o t)) (is_member_in u o) turns (reads-member u o t) allowed
  ]

  -- A socket that receives an event of an organization after any sequence of messages belongs to a
  -- user who was a member of it at one of them, where each ticket stays in its organization.
  pub receives_member :
      (e : Published)
      → receives (run turns (connect u)) e ≡ true
      → any (is_member_in u (organization_of e)) turns ≡ true
  unfolding audience
  receives_member (Published.ticket_created o t) h = organization_room-member o (ground (arith, h))
  receives_member (Published.ticket_updated o t) h =
      either_room o t (rooms_of (run turns (connect u))) h (organization_room-member o)
        (ticket_room-member o t)
  receives_member (Published.message_created o t m) h =
      either_room o t (rooms_of (run turns (connect u))) h (organization_room-member o)
        (ticket_room-member o t)
  receives_member (Published.email_delivery_updated o t m d st) h =
      ticket_room-member o t (ground (arith, h))
