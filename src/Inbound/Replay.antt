-- ===== src/Inbound/Replay.antt =====
-- A received email is stored at most once.
use opsdesk.Base.{
  Bool-cases, refl, Result, Failure, ◌==◌, ◌!=◌, or_else, ok, err, ℕ, String, ◌≡◌, ◌⊎◌, inl, inr,
  Bool, true, false, Option, none, some, nat_eq, string_eq, option_eq,
}
use opsdesk.Schema.{Ticket}
use opsdesk.State.{State}
use opsdesk.Inbound.{
  recipients_of, DatabaseError, InboundResult, ignored, created, ProviderAnswer, TextFunctions,
  ReceivedEvent, WebhookIdentity, duplicate, was_seen, record_ignored_event, write_reply,
  after_reply, store_reply, handle_for_ticket, handle_for_id, handle_received_email,
}
use opsdesk.Inbound.Recorded.{to_reopen, write_reply_cases, fetched_cases, handled_again}

module _ (identity : WebhookIdentity) where
  -- a part of a call throws and writes nothing, or returns
  abbrev Ends : (State → Result InboundResult × State) → State → Type 0
  Ends m w = ((e : Failure) × (m w ≡ (err e, w))) ⊎ ((r : InboundResult) × ((m w).0 ≡ ok r))

  ignored-Ends :
      (fails : DatabaseError) (reason : String) (w : State)
      → Ends (record_ignored_event identity fails reason) w
  unfolding record_ignored_event
  ignored-Ends (some message) reason w = inl (_, refl)
  ignored-Ends none reason w = elim (Bool-cases (was_seen identity w)) [
    | inl s ↦ inr (duplicate, rw s refl)
    | inr s ↦ inr (ignored reason, rw s refl)
  ]

  after_reply_ok :
      (t : Ticket) (id : ℕ) (reopened : Bool) (w : State)
      → (after_reply t id (ok reopened) w).0 ≡ ok (created id)
  unfolding after_reply
  after_reply_ok t id true w = refl
  after_reply_ok t id false w = refl

  store_reply-Ends :
      (fails : DatabaseError) (t : Ticket) (body : String) (id now : ℕ) (w : State)
      → Ends (store_reply identity fails t body id now) w
  unfolding store_reply write_reply after_reply
  store_reply-Ends (some message) t body id now w = inl (_, refl)
  store_reply-Ends none t body id now w = elim (write_reply_cases identity t body id now w) [
    | inl (s, r) ↦ inr (duplicate, rw r refl)
    | inr (r, s) ↦ inr (
      created id,
      rw r (
          after_reply_ok t id (to_reopen identity t now w == 1)
            (write_reply identity none t body id now w).1),
    )
  ]

  -- a call throws with nothing recorded, where others may have written, or returns
  abbrev EndsAfter : (State → State) → (State → Result InboundResult × State) → State → Type 0
  EndsAfter others m w =
      ((e : Failure) × ((m w ≡ (err e, w)) ⊎ (m w ≡ (err e, others w))))
      ⊎ ((r : InboundResult) × ((m w).0 ≡ ok r))

  by_ignoring :
      (others : State → State) (fails : DatabaseError) (reason : String) (w : State)
      → EndsAfter others (record_ignored_event identity fails reason) w
  by_ignoring others fails reason w = elim (ignored-Ends fails reason w) [
    | inl (e, r) ↦ inl (e, inl r)
    | inr returned ↦ inr returned
  ]

  for_ticket-EndsAfter :
      (text : TextFunctions) (others : State → State) (fails : DatabaseError) (sender body : String)
      (found : Option Ticket) (address : Option String) (id now : ℕ) (w : State)
      → EndsAfter others
          (handle_for_ticket text others fails identity sender body found address id now)
          w
  unfolding handle_for_ticket
  for_ticket-EndsAfter text others fails sender body none address id now w =
      by_ignoring others fails _ w
  for_ticket-EndsAfter text others fails sender body (some t) none id now w =
      by_ignoring others fails _ w
  for_ticket-EndsAfter text others fails sender body (some t) (some address) id now w =
      elim (Bool-cases (text.normalize sender != text.trim_lower address)) [
        | inl m ↦ rw m (by_ignoring others fails "sender-mismatch" w)
        | inr m ↦ elim (Bool-cases (body == "")) [
          | inl b ↦ rw (m, b) (by_ignoring others fails "empty-body" w)
          | inr b ↦ elim (store_reply-Ends fails t body id now (others w)) [
            | inl (e, r) ↦ inl (e, inr (rw (m, b, r) refl))
            | inr (r, h) ↦ inr (r, rw (m, b) h)
          ]
        ]
      ]

  for_id-EndsAfter :
      (text : TextFunctions) (others : State → State) (fails : DatabaseError) (sender body : String)
      (ticket_id : Option ℕ) (id now : ℕ) (w : State)
      → EndsAfter others (handle_for_id text others fails identity sender body ticket_id id now) w
  unfolding handle_for_id
  for_id-EndsAfter text others fails sender body none id now w = by_ignoring others fails _ w
  for_id-EndsAfter text others fails sender body (some k) id now w =
      for_ticket-EndsAfter text others fails sender body _ _ id now w

  -- A call of the webhook for an email throws, for an error of the provider or of the database, and
  -- then it has recorded nothing and leaves what others committed; or it returns, and then every
  -- further call for the email is a duplicate that changes nothing, whatever the first one came to,
  -- whatever was committed while it ran, and whatever the provider and the database would answer.
  pub handle_received_once :
      (text text' : TextFunctions) (fetching fetching' others others' : State → State)
      (fails fails' : DatabaseError) (event event' : ReceivedEvent)
      (answer answer' : ProviderAnswer) (id id' now later : ℕ) (w : State)
      → let call =
          handle_received_email text fetching others fails event answer identity id now w in
        ((e : Failure) × ((call ≡ (err e, fetching w)) ⊎ (call ≡ (err e, others (fetching w)))))
        ⊎ ((r : InboundResult) × (call.0 ≡ ok r)
            × (handle_received_email text' fetching' others' fails' event' answer' identity id'
                  later call.1
                ≡ (ok duplicate, call.1)))
  unfolding handle_received_email
  handle_received_once text text' fetching fetching' others others' fails fails' event event' answer
        answer' id id' now later w =
      let call = handle_received_email text fetching others fails event answer identity id now w in
      let again = λ (r : InboundResult).
        handled_again identity text text' fetching fetching' others others' fails fails' event
          event' answer answer' id id' now later w {r = r} in
      elim (Bool-cases (was_seen identity w)) [
        | inl s ↦ let h : call.0 ≡ ok duplicate = rw s refl in inr (duplicate, h, again duplicate h)
        | inr s ↦ elim (fetched_cases identity answer) [
          | inl (e, f) ↦ inl (e, inl (rw (s, f) refl))
          | inr (received, f) ↦
              elim (for_id-EndsAfter text others fails (or_else received.from event.from)
                (text.body_of received.text received.html)
                (text.ticket_id_of (recipients_of received.to event.to)) id now (fetching w)) [
                  | inl (e, inl r) ↦ inl (e, inl (rw (s, f, r) refl))
                  | inl (e, inr r) ↦ inl (e, inr (rw (s, f, r) refl))
                  | inr (r, h) ↦
                      let returned : call.0 ≡ ok r = rw (s, f) h in
                      inr (r, returned, again r returned)
                ]
        ]
      ]
