-- ===== src/Inbound/Stored.antt =====
-- What storing a reply of a customer leaves.
use opsdesk.Base.{
  if◌then◌else◌, Bool-cases, none, Option-cases, ◌==◌, ◌!=◌, beq_refl, find_first, count,
  update_many, find_first-update_many, or_else, ok, ℕ, String, ◌≡◌, refl, ap, ◌≢◌, inl, inr, Bool,
  true, some, List, arith, option_eq, nat_eq, string_eq,
}
use opsdesk.Enums.{TicketStatus, ticket_status_eq}
use opsdesk.Schema.{Ticket}
use opsdesk.State.{State}
use opsdesk.Tickets.Queries.{in_org}
use opsdesk.Inbound.{
  reply_address, handle_received_email, handle_for_id, handle_for_ticket, recipients_of, address_of,
  TextFunctions, DatabaseError, ProviderAnswer, get_received_email, ReceivedEmail, ReceivedEvent,
  WebhookIdentity, created, was_seen, record_ignored_event, write_reply, after_reply, store_reply,
  needs_attention, reopened_at, record_for_system,
}

abbrev pub by_id : ℕ → Ticket → Bool
by_id k t = t.id == k

abbrev touched_at : ℕ → Ticket → Ticket
touched_at now x = record x { updated_at = now }

abbrev after_touches : Ticket → ℕ → List Ticket → List Ticket
after_touches t now ts =
    update_many (needs_attention t.organization_id t.id) (reopened_at now)
      (update_many (in_org t.organization_id t.id) (touched_at now) ts)

ignored_is_not_created :
    (identity : WebhookIdentity) (fails : DatabaseError) (reason : String) (m : ℕ) (w : State)
    → (record_ignored_event identity fails reason w).0 ≢ ok (created m)
unfolding record_ignored_event
ignored_is_not_created identity (some message) reason m w h = absurd (ground (arith, h))
ignored_is_not_created identity none reason m w h = elim (Bool-cases (was_seen identity w)) [
  | inl s ↦ absurd (ground (arith, rw s at h))
  | inr s ↦ absurd (ground (arith, rw s at h))
]

opened_status :
    (org id now : ℕ) (x : Ticket)
    → in_org org id x ≡ true
    → (if needs_attention org id x then reopened_at now x else x).status ≡ TicketStatus.opened
opened_status org id now x h = elim (Bool-cases (needs_attention org id x)) [
  | inl e ↦ rw e refl
  | inr e ↦ rw e (ground (arith, h, e))
]

module _ (identity : WebhookIdentity) (t : Ticket) (body : String) (id now m : ℕ) where
  store_reply-tickets :
      (fails : DatabaseError) (w : State)
      → (store_reply identity fails t body id now w).0 ≡ ok (created m)
      → (store_reply identity fails t body id now w).1.tickets ≡ after_touches t now w.tickets
  unfolding store_reply write_reply after_reply record_for_system
  store_reply-tickets (some message) w h = absurd (ground (arith, h))
  store_reply-tickets none w h = elim (Bool-cases (was_seen identity w)) [
    | inl s ↦ absurd (ground (arith, rw s at h))
    | inr s ↦
        elim (Bool-cases (
          count (needs_attention t.organization_id t.id)
            (update_many (in_org t.organization_id t.id) (touched_at now) w.tickets)
          == 1)) [ inl r ↦ rw (s, r) refl | inr r ↦ rw (s, r) refl ]
  ]

  abbrev reopen_if_needed : Ticket → Ticket
  reopen_if_needed x = if needs_attention t.organization_id t.id x then reopened_at now x else x

  mine : in_org t.organization_id t.id t ≡ true
  mine = rw (beq_refl t.id, beq_refl t.organization_id) refl

  found_after :
      (k : ℕ) (ts : List Ticket)
      → find_first (by_id k) ts ≡ some t
      → find_first (by_id k) (after_touches t now ts) ≡ some (reopen_if_needed (touched_at now t))
  found_after k ts f =
      rw
        (
          find_first-update_many (by_id k) (needs_attention t.organization_id t.id)
              (reopened_at now) (update_many (in_org t.organization_id t.id) (touched_at now) ts)
              (λ x _. refl),
          find_first-update_many (by_id k) (in_org t.organization_id t.id) (touched_at now) ts
              (λ x _. refl),
          f,
        )
        (ap (λ b. some (reopen_if_needed (if b then touched_at now t else t))) mine)

  store_reply-opens :
      (fails : DatabaseError) (k : ℕ) (w : State)
      → find_first (by_id k) w.tickets ≡ some t
      → (store_reply identity fails t body id now w).0 ≡ ok (created m)
      → (t' : Ticket) × (find_first (by_id k) (store_reply identity fails t body id now w).1.tickets
          ≡ some t')
        × (t'.status ≡ TicketStatus.opened)
  store_reply-opens fails k w f h = (
    reopen_if_needed (touched_at now t),
    rw (store_reply-tickets fails w h) (found_after k w.tickets f),
    opened_status t.organization_id t.id now (touched_at now t) mine,
  )

for_ticket-opens :
    (text : TextFunctions) (fails : DatabaseError) (identity : WebhookIdentity)
    (sender body : String) (id now m k : ℕ) (w : State)
    → let found = find_first (by_id k) w.tickets in
      let m' =
        handle_for_ticket text
          (λ s. s)
          fails
          identity
          sender
          body
          found
          (address_of found w.customers)
          id
          now in
      (m' w).0 ≡ ok (created m)
      → (t' : Ticket) × (find_first
            (by_id k)
            (handle_for_ticket text
              (λ s. s)
              fails
              identity
              sender
              body
              (find_first (by_id k) w.tickets)
              (address_of (find_first (by_id k) w.tickets) w.customers)
              id
              now
              w).1.tickets
          ≡ some t')
        × (t'.status ≡ TicketStatus.opened)
unfolding handle_for_ticket
for_ticket-opens text fails identity sender body id now m k w h =
    elim (Option-cases (find_first (by_id k) w.tickets)) [
      | inl f ↦ absurd (ignored_is_not_created identity fails "ticket-not-found" m w (rw f at h))
      | inr (t, f) ↦ elim (Option-cases (reply_address t w.customers)) [
        | inl a ↦
            absurd (ignored_is_not_created identity fails "ticket-not-found" m w (rw (f, a) at h))
        | inr (address, a) ↦ elim (Bool-cases (text.normalize sender != text.trim_lower address)) [
          | inl q ↦
              absurd
                (ignored_is_not_created identity fails "sender-mismatch" m w (rw (f, a, q) at h))
          | inr q ↦ elim (Bool-cases (body == "")) [
            | inl b ↦
                absurd
                  (ignored_is_not_created identity fails "empty-body" m w (rw (f, a, q, b) at h))
            | inr b ↦
                rw (f, a, q, b)
                  (store_reply-opens identity t body id now m fails k w f (rw (f, a, q, b) at h))
          ]
        ]
      ]
    ]

-- An email that is stored, with no other request in between, leaves the ticket that its recipient
-- names open, whatever its status was.
pub stored_opens :
    (text : TextFunctions) (fails : DatabaseError) (event : ReceivedEvent) (answer : ProviderAnswer)
    (received : ReceivedEmail) (identity : WebhookIdentity) (id now m k : ℕ) (w : State)
    → get_received_email answer ≡ ok received
    → text.ticket_id_of (recipients_of received.to event.to) ≡ some k
    → (handle_received_email text (λ s. s) (λ s. s) fails event answer identity id now w).0
      ≡ ok (created m)
    → (t' : Ticket) × (find_first
          (by_id k)
          (handle_received_email text
            (λ s. s)
            (λ s. s)
            fails
            event
            answer
            identity
            id
            now
            w).1.tickets
        ≡ some t')
      × (t'.status ≡ TicketStatus.opened)
unfolding handle_received_email handle_for_id
stored_opens text fails event answer received identity id now m k w fetched route h =
    elim (Bool-cases (was_seen identity w)) [
      | inl s ↦ absurd (ground (arith, rw s at h))
      | inr s ↦
          rw (s, fetched, route)
            (for_ticket-opens text fails identity (or_else received.from event.from)
              (text.body_of received.text received.html) id now m k w (rw (s, fetched, route) at h))
    ]
