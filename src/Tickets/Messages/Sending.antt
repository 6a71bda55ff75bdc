-- ===== src/Tickets/Messages/Sending.antt =====
-- What `createMessage` promises: all of a message is stored or nothing of it.
use opsdesk.Base.{
  ltb, Bool-cases, ◌!=◌, beq_refl, length, find_first, find_many, count, update_many, All,
  All-intro, update_many_none, count_none, transaction, Failure, bad_request, conflict, ok, err, ℕ,
  ◌≤◌, ◌≡◌, refl, sym, ◌∙◌, ◌⊎◌, inl, inr, false, Option, none, some, List, [], ◌∷◌, arith,
  string_eq, nat_eq, option_eq,
}
use opsdesk.Enums.{
  MessageKind, email_delivery_status_eq, message_kind_eq, ticket_status_eq, attachment_status_eq,
}
use opsdesk.Schema.{Attachment, EmailDelivery, Ticket, TicketMessage}
use opsdesk.State.{TenantContext, State}
use opsdesk.Tickets.Queries.{in_org}
use opsdesk.Tickets.Messages.{
  CreateMessageInput, available, total_bytes, max_message_attachments_bytes, check_attachments,
  linked_to, link_attachments, new_message, open_delivery, record_message, write_message,
  is_message,
}

-- no attachment is available for an empty list
pub nothing_available :
    (org ticket_id : ℕ) (ids : List ℕ) (xs : List Attachment)
    → ltb 0 (length ids) ≡ false
    → All (λ a. available org ticket_id ids a ≡ false) xs
unfolding length
nothing_available org ticket_id [] xs h = All-intro _ xs (λ a. refl)
nothing_available org ticket_id (i ∷ ids) xs h = absurd (ground (arith, h))

pub no_ids : (ids : List ℕ) → ltb 0 (length ids) ≡ false → length ids ≡ 0
no_ids ids h = ground (arith, h)

-- The checked attachments: each of the ids names one, and together they are small enough.
abbrev pub Fit : ℕ → ℕ → List ℕ → List Attachment → Type 0
Fit org ticket_id ids xs =
    (ltb 0 (length ids) ≡ false)
    ⊎ ((length (find_many (available org ticket_id ids) xs) ≡ length ids)
        × (total_bytes (find_many (available org ticket_id ids) xs)
            ≤ max_message_attachments_bytes))

pub check_attachments_cases :
    (org ticket_id : ℕ) (ids : List ℕ) (w : State)
    → ((e : Failure) × (check_attachments org ticket_id ids w ≡ (err e, w)))
      ⊎ (Fit org ticket_id ids w.attachments × (check_attachments org ticket_id ids w ≡ (ok tt, w)))
unfolding check_attachments
check_attachments_cases org ticket_id ids w = elim (Bool-cases (ltb 0 (length ids))) [
  | inr n ↦ inr (inl n, rw n)
  | inl n ↦
      elim (Bool-cases
        (length (find_many (available org ticket_id ids) w.attachments) != length ids)) [
          | inl k ↦ inl (conflict "One or more attachments are unavailable", rw (n, k))
          | inr k ↦
              elim (Bool-cases (
                ltb max_message_attachments_bytes
                  (total_bytes (find_many (available org ticket_id ids) w.attachments)))) [
                    | inl b ↦ inl (
                      bad_request "Attachments exceed the maximum total size for a message",
                      rw (n, k, b),
                    )
                    | inr b ↦ inr (inr (ground (arith, k), ground (arith, b)), rw (n, k, b))
                  ]
        ]
]

abbrev pub after_link : ℕ → ℕ → List ℕ → ℕ → State → State
after_link org ticket_id ids message_id w = record w {
  attachments = update_many (available org ticket_id ids) (linked_to message_id) w.attachments;
}

link_attachments_cases :
    (org ticket_id : ℕ) (ids : List ℕ) (message_id : ℕ) (w : State)
    → ((e : Failure) × (w' : State) × (link_attachments org ticket_id ids message_id w
          ≡ (err e, w')))
      ⊎ ((count (available org ticket_id ids) w.attachments ≡ length ids)
          × (link_attachments org ticket_id ids message_id w
              ≡ (ok tt, after_link org ticket_id ids message_id w)))
unfolding link_attachments
link_attachments_cases org ticket_id ids message_id w = elim (Bool-cases (ltb 0 (length ids))) [
  | inr n ↦
      let off : All (λ a. available org ticket_id ids a ≡ false) w.attachments =
        nothing_available org ticket_id ids w.attachments n in
      inr (
        count_none (available org ticket_id ids) w.attachments off ∙ sym (no_ids ids n),
        rw (
          n,
          update_many_none (available org ticket_id ids) (linked_to message_id) w.attachments off,
        ),
      )
  | inl n ↦ elim (Bool-cases (count (available org ticket_id ids) w.attachments != length ids)) [
    | inl k ↦ inl (
      conflict "One or more attachments were linked concurrently",
      after_link org ticket_id ids message_id w,
      rw (n, k),
    )
    | inr k ↦ inr (ground (arith, k), rw (n, k))
  ]
]

abbrev pub opened_delivery : EmailDelivery → MessageKind → Option EmailDelivery
opened_delivery delivery MessageKind.internal_note = none
opened_delivery delivery MessageKind.public_reply = some delivery

abbrev pub add_delivery : EmailDelivery → MessageKind → List EmailDelivery → List EmailDelivery
add_delivery delivery MessageKind.internal_note ds = ds
add_delivery delivery MessageKind.public_reply ds = delivery ∷ ds

abbrev pub with_delivery : EmailDelivery → MessageKind → State → State
with_delivery delivery kind w = record w { deliveries = add_delivery delivery kind w.deliveries }

open_delivery_lem :
    (delivery : EmailDelivery) (kind : MessageKind) (w : State)
    → open_delivery delivery kind w
      ≡ (ok (opened_delivery delivery kind), with_delivery delivery kind w)
unfolding open_delivery
open_delivery_lem delivery MessageKind.internal_note w = refl
open_delivery_lem delivery MessageKind.public_reply w = refl

module _ (tenant : TenantContext) (ticket : Ticket) (input : CreateMessageInput) (ids : List ℕ)
    (delivery : EmailDelivery) (id now : ℕ) (w : State) where
  abbrev stored : State
  stored = record w {
    messages = new_message tenant ticket.id input id now ∷ w.messages;
    tickets =
        update_many (in_org tenant.organization_id ticket.id) (λ t. record t { updated_at = now })
          w.tickets;
  }

  abbrev pub after_write : State
  after_write =
      with_delivery delivery input.kind
        (record_message tenant ticket.id input ids id now
          (after_link tenant.organization_id ticket.id ids id stored)).1

  found_new :
      (xs : List TicketMessage)
      → find_first
          (is_message tenant.organization_id ticket.id id)
          (new_message tenant ticket.id input id now ∷ xs)
        ≡ some (new_message tenant ticket.id input id now)
  unfolding find_first
  found_new xs = rw (beq_refl id, beq_refl tenant.organization_id, beq_refl ticket.id) refl

  pub write_message_cases :
      ((e : Failure) × (transaction (write_message tenant ticket input ids delivery id now) w
          ≡ (err e, w)))
      ⊎ ((count (available tenant.organization_id ticket.id ids) w.attachments ≡ length ids)
          × (transaction (write_message tenant ticket input ids delivery id now) w ≡ (
            ok (new_message tenant ticket.id input id now, opened_delivery delivery input.kind),
            after_write,
          )))
  unfolding write_message record_message
  write_message_cases =
      elim (link_attachments_cases tenant.organization_id ticket.id ids id stored) [
        | inl (e, w', l) ↦ inl (e, rw l)
        | inr (c, l) ↦ inr (c, rw (l, open_delivery_lem, found_new))
      ]
