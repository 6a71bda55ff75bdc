-- ===== src/Tickets/Messages/Cases.antt =====
-- The ways in which the steps of `createMessage` end.
use opsdesk.Base.{
  if◌then◌else◌, Bool-cases, Option-cases, ◌==◌, ◌!=◌, length, find_first, count, or_else, Failure,
  bad_request, not_found, conflict, ok, err, ℕ, String, ◌≡◌, refl, ◌⊎◌, inl, inr, Bool, false, ◌&&◌,
  some, List, [], ◌∷◌, arith, string_eq, nat_eq, option_eq,
}
use opsdesk.Enums.{
  MessageKind, EmailDeliveryStatus, email_delivery_status_eq, message_kind_eq, ticket_status_eq,
}
use opsdesk.Schema.{EmailDelivery, Ticket}
use opsdesk.State.{TenantContext, State, Published}
use opsdesk.Tickets.Queries.{in_org, require_ticket}
use opsdesk.Tickets.Messages.{
  CreateMessageInput, unique, available, new_message, customer_email, recipient_of, new_delivery,
  announce_delivery, closed_to, create_message,
}
use opsdesk.Tickets.Messages.Sending.{
  Fit, check_attachments_cases, after_write, write_message_cases, opened_delivery,
}

abbrev pub announcement : ℕ → ℕ → ℕ → EmailDelivery → MessageKind → List Published → List Published
announcement org ticket_id message_id d MessageKind.internal_note events = events
announcement org ticket_id message_id d MessageKind.public_reply events =
    Published.email_delivery_updated org ticket_id message_id d.id d.status ∷ events

-- a reply is queued when it has a recipient and the queue accepts it
abbrev pub queue_reply : (ℕ → Bool) → EmailDelivery → MessageKind → List ℕ → List ℕ
queue_reply accepts d MessageKind.internal_note queued = queued
queue_reply accepts d MessageKind.public_reply queued =
    if (d.status == EmailDeliveryStatus.pending) && accepts d.id then d.id ∷ queued else queued

announce_lem :
    (accepts : ℕ → Bool) (org ticket_id message_id : ℕ) (d : EmailDelivery) (kind : MessageKind)
    (w : State)
    → announce_delivery accepts org ticket_id message_id (opened_delivery d kind) w ≡ (
      ok tt,
      record w {
        published = announcement org ticket_id message_id d kind w.published;
        queued = queue_reply accepts d kind w.queued;
      },
    )
unfolding announce_delivery
announce_lem accepts org ticket_id message_id d MessageKind.internal_note w = refl
announce_lem accepts org ticket_id message_id d MessageKind.public_reply w =
    elim (Bool-cases ((d.status == EmailDeliveryStatus.pending) && accepts d.id)) [
      | inl e ↦ rw e
      | inr e ↦ rw e
    ]

module _ (trim_lower : String → String) (others : State → State) (accepts : ℕ → Bool)
    (tenant : TenantContext) (ticket_id : ℕ) (input : CreateMessageInput) (id delivery_id now : ℕ)
    (w : State) where
  abbrev pub linked_ids : List ℕ
  linked_ids = unique (or_else input.attachment_ids [])

  abbrev pub reply_delivery : Ticket → EmailDelivery
  reply_delivery t =
      new_delivery tenant.organization_id t.id id
        (recipient_of trim_lower (customer_email t w.customers)) delivery_id now

  abbrev pub after_create : Ticket → State
  after_create t =
      let s = after_write tenant t input linked_ids (reply_delivery t) id now (others w) in
      record s {
        published =
            announcement tenant.organization_id ticket_id id (reply_delivery t) input.kind
              (Published.message_created tenant.organization_id ticket_id id ∷ s.published);
        queued = queue_reply accepts (reply_delivery t) input.kind s.queued;
      }

  pub record Written (t : Ticket) : Type 0 where
    pub was_read : find_first (in_org tenant.organization_id ticket_id) w.tickets ≡ some t
    pub not_closed : closed_to input.kind t ≡ false
    pub no_duplicates : length linked_ids ≡ length (or_else input.attachment_ids [])
    pub fit : Fit tenant.organization_id t.id linked_ids w.attachments
    pub all_taken :
        count (available tenant.organization_id t.id linked_ids) (others w).attachments
        ≡ length linked_ids
    pub result :
        create_message trim_lower others accepts tenant ticket_id input id delivery_id now w
        ≡ (ok (new_message tenant t.id input id now), after_create t)

  -- a call throws and leaves the state as the others left it, or every step of it succeeds
  pub create_message_cases :
      ((e : Failure) × ((create_message trim_lower others accepts tenant ticket_id input id
              delivery_id now w
            ≡ (err e, w))
          ⊎ (create_message trim_lower others accepts tenant ticket_id input id delivery_id now w
              ≡ (err e, others w))))
      ⊎ ((t : Ticket) × Written t)
  unfolding create_message require_ticket
  create_message_cases =
      elim (Bool-cases (length linked_ids != length (or_else input.attachment_ids []))) [
        | inl u ↦ inl (bad_request "Duplicate attachment IDs are not allowed", inl (rw u))
        | inr u ↦
            elim (Option-cases (find_first (in_org tenant.organization_id ticket_id) w.tickets)) [
              | inl f ↦ inl (not_found "Ticket not found", inl (rw (u, f)))
              | inr (t, f) ↦ elim (Bool-cases (closed_to input.kind t)) [
                | inl c ↦ inl (
                  conflict "Closed tickets must be reopened before sending a public reply",
                  inl (rw (u, f, c)),
                )
                | inr c ↦ elim (check_attachments_cases tenant.organization_id t.id linked_ids w) [
                  | inl (e, a) ↦ inl (e, inl (rw (u, f, c, a)))
                  | inr (fits, a) ↦
                      elim (write_message_cases tenant t input linked_ids (reply_delivery t) id now
                        (others w)) [
                          | inl (e, r) ↦ inl (e, inr (rw (u, f, c, a, r)))
                          | inr (taken, r) ↦ inr (
                            t,
                            record {
                              was_read = f;
                              not_closed = c;
                              no_duplicates = ground (arith, u);
                              fit = fits;
                              all_taken = taken;
                              result = rw (u, f, c, a, r, announce_lem);
                            },
                          )
                        ]
                ]
              ]
            ]
      ]
