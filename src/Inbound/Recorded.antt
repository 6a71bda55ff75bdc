-- ===== src/Inbound/Recorded.antt =====
-- An email for which a call returned is recorded.
use opsdesk.Base.{
  Bool-cases, refl, Result, Failure, arith, ◌==◌, ◌!=◌, beq_refl, count, update_many, or_else,
  unique_violation, ok, err, ℕ, String, ◌≡◌, ◌⊎◌, inl, inr, Bool, true, false, Option, none, some,
  nat_eq, string_eq, option_eq,
}
use opsdesk.Schema.{Ticket}
use opsdesk.State.{State}
use opsdesk.Inbound.{
  recipients_of, DatabaseError, InboundResult, ProviderAnswer, get_received_email, TextFunctions,
  ReceivedEmail, ReceivedEvent, WebhookIdentity, duplicate, was_seen, record_ignored_event,
  write_reply, after_reply, store_reply, handle_for_ticket, handle_for_id, handle_received_email,
  needs_attention, record_for_system, email_received,
}
use opsdesk.Tickets.Queries.{in_org}

result_cases : {A : Type 0} (r : Result A) → ((e : Failure) × (r ≡ err e)) ⊎ ((a : A) × (r ≡ ok a))
result_cases (err e) = inl (e, refl)
result_cases (ok a) = inr (a, refl)

module _ (identity : WebhookIdentity) where
  recorded_ignored :
      (fails : DatabaseError) (reason : String) (w : State) {r : InboundResult}
      → (record_ignored_event identity fails reason w).0 ≡ ok r
      → was_seen identity (record_ignored_event identity fails reason w).1 ≡ true
  unfolding record_ignored_event
  recorded_ignored (some message) reason w h = absurd (ground (arith, h))
  recorded_ignored none reason w h = elim (Bool-cases (was_seen identity w)) [
    | inl s ↦ rw s s
    | inr s ↦ rw (s, beq_refl email_received, beq_refl identity.provider_entity_id)
  ]

  abbrev pub to_reopen : Ticket → ℕ → State → ℕ
  to_reopen t now w =
      count (needs_attention t.organization_id t.id)
        (update_many (in_org t.organization_id t.id) (λ x. record x { updated_at = now }) w.tickets)

  pub write_reply_cases :
      (t : Ticket) (body : String) (id now : ℕ) (w : State)
      → ((was_seen identity w ≡ true)
          × (write_reply identity none t body id now w ≡ (err unique_violation, w)))
        ⊎ (((write_reply identity none t body id now w).0 ≡ ok (to_reopen t now w == 1))
            × (was_seen identity (write_reply identity none t body id now w).1 ≡ true))
  unfolding write_reply record_for_system
  write_reply_cases t body id now w = elim (Bool-cases (was_seen identity w)) [
    | inl s ↦ inl (s, rw s)
    | inr s ↦ elim (Bool-cases (to_reopen t now w == 1)) [
      | inl r ↦
          inr (rw (s, r), rw (s, r, beq_refl email_received, beq_refl identity.provider_entity_id))
      | inr r ↦
          inr (rw (s, r), rw (s, r, beq_refl email_received, beq_refl identity.provider_entity_id))
    ]
  ]

  after_reply_seen :
      (t : Ticket) (id : ℕ) (reopened : Bool) (w : State)
      → was_seen identity w ≡ true
      → was_seen identity (after_reply t id (ok reopened) w).1 ≡ true
  unfolding after_reply
  after_reply_seen t id true w s = s
  after_reply_seen t id false w s = s

  again :
      (t : Ticket) (id : ℕ) (w : State)
      → was_seen identity w ≡ true
      → was_seen identity (after_reply t id (err unique_violation) w).1 ≡ true
  unfolding after_reply
  again t id w s = s

  store_reply_seen :
      (fails : DatabaseError) (t : Ticket) (body : String) (id now : ℕ) (w : State)
      {r : InboundResult}
      → (store_reply identity fails t body id now w).0 ≡ ok r
      → was_seen identity (store_reply identity fails t body id now w).1 ≡ true
  unfolding store_reply write_reply after_reply
  store_reply_seen (some message) t body id now w h = absurd (ground (arith, h))
  store_reply_seen none t body id now w h = elim (write_reply_cases t body id now w) [
    | inl (s, r) ↦ rw r (again t id w s)
    | inr (r, s) ↦ rw r (
        after_reply_seen t id (to_reopen t now w == 1) (write_reply identity none t body id now w).1
          s)
  ]

  for_ticket_seen :
      (text : TextFunctions) (others : State → State) (fails : DatabaseError) (sender body : String)
      (found : Option Ticket) (address : Option String) (id now : ℕ) (w : State) {r : InboundResult}
      → (handle_for_ticket text others fails identity sender body found address id now w).0 ≡ ok r
      → was_seen identity
          (handle_for_ticket text others fails identity sender body found address id now w).1
        ≡ true
  unfolding handle_for_ticket
  for_ticket_seen text others fails sender body none address id now w h =
      recorded_ignored fails _ w h
  for_ticket_seen text others fails sender body (some t) none id now w h =
      recorded_ignored fails _ w h
  for_ticket_seen text others fails sender body (some t) (some address) id now w h =
      elim (Bool-cases (text.normalize sender != text.trim_lower address)) [
        | inl m ↦ rw m (recorded_ignored fails "sender-mismatch" w (rw m at h))
        | inr m ↦ elim (Bool-cases (body == "")) [
          | inl b ↦ rw (m, b) (recorded_ignored fails "empty-body" w (rw (m, b) at h))
          | inr b ↦ rw (m, b) (store_reply_seen fails t body id now (others w) (rw (m, b) at h))
        ]
      ]

  for_id_seen :
      (text : TextFunctions) (others : State → State) (fails : DatabaseError) (sender body : String)
      (ticket_id : Option ℕ) (id now : ℕ) (w : State) {r : InboundResult}
      → (handle_for_id text others fails identity sender body ticket_id id now w).0 ≡ ok r
      → was_seen identity
          (handle_for_id text others fails identity sender body ticket_id id now w).1
        ≡ true
  unfolding handle_for_id
  for_id_seen text others fails sender body none id now w h = recorded_ignored fails _ w h
  for_id_seen text others fails sender body (some k) id now w h =
      for_ticket_seen text others fails sender body _ _ id now w h

  pub fetched_cases :
      (answer : ProviderAnswer)
      → ((e : Failure) × (get_received_email answer ≡ err e))
        ⊎ ((received : ReceivedEmail) × (get_received_email answer ≡ ok received))
  fetched_cases answer = result_cases (get_received_email answer)

  handle_seen :
      (text : TextFunctions) (fetching others : State → State) (fails : DatabaseError)
      (event : ReceivedEvent) (answer : ProviderAnswer) (id now : ℕ) (w : State) {r : InboundResult}
      → (handle_received_email text fetching others fails event answer identity id now w).0 ≡ ok r
      → was_seen identity
          (handle_received_email text fetching others fails event answer identity id now w).1
        ≡ true
  unfolding handle_received_email
  handle_seen text fetching others fails event answer id now w h =
      elim (Bool-cases (was_seen identity w)) [
        | inl s ↦ rw s s
        | inr s ↦ elim (fetched_cases answer) [
          | inl (e, f) ↦ absurd (ground (arith, rw (s, f) at h))
          | inr (received, f) ↦
              rw (s, f)
                (for_id_seen text others fails (or_else received.from event.from)
                  (text.body_of received.text received.html)
                  (text.ticket_id_of (recipients_of received.to event.to)) id now (fetching w)
                  (rw (s, f) at h))
        ]
      ]

  -- after a call that returned, every further call is a duplicate that changes nothing
  pub handled_again :
      (text text' : TextFunctions) (fetching fetching' others others' : State → State)
      (fails fails' : DatabaseError) (event event' : ReceivedEvent)
      (answer answer' : ProviderAnswer) (id id' now later : ℕ) (w : State) {r : InboundResult}
      → (handle_received_email text fetching others fails event answer identity id now w).0 ≡ ok r
      → let w' =
          (handle_received_email text fetching others fails event answer identity id now w).1 in
        handle_received_email text' fetching' others' fails' event' answer' identity id' later w'
        ≡ (ok duplicate, w')
  unfolding handle_received_email
  handled_again text text' fetching fetching' others others' fails fails' event event' answer
        answer' id id' now later w returned =
      rw (handle_seen text fetching others fails event answer id now w returned)
