-- ===== src/Tickets/Messages/Outcome.antt =====
-- The two ways in which `createMessage` ends.
use opsdesk.Base.{
  ◌==◌, length, find_first, find_many, count, update_many, any, Distinct, or_else, Failure, ok, err,
  ℕ, ◌*◌, ◌≤◌, String, ◌≡◌, subst, ◌≢◌, ◌⊎◌, inl, inr, Bool, ◌&&◌, none, some, List, [], ◌∷◌,
  string_eq, nat_eq, option_eq,
}
use opsdesk.Enums.{
  TicketStatus, MessageKind, AuthorType, MessageSource, AttachmentStatus, email_delivery_status_eq,
  message_kind_eq, ticket_status_eq, attachment_status_eq,
}
use opsdesk.Schema
use opsdesk.Schema.{Attachment, AuditLog, Customer, EmailDelivery, Ticket, TicketMessage}
use opsdesk.State.{TenantContext, State, Published}
use opsdesk.Audit.{record_for_tenant}
use opsdesk.Tickets.Queries.{in_org}
use opsdesk.Tickets.Messages.{
  CreateMessageInput, available, create_message, customer_email, recipient_of, record_message,
}
use opsdesk.Tickets.Messages.Sending.{Fit, add_delivery, after_write}
use opsdesk.Tickets.Messages.Cases.{
  announcement, create_message_cases, queue_reply, reply_delivery, Written,
}
use opsdesk.Tickets.Messages.Duplicates.{unique-Distinct}
use opsdesk.Tickets.Messages.Rows.{
  address, address_lem, bytes_of, fits_bytes, not_closed_lem, opened, opened_lem,
}

module _ (trim_lower : String → String) (others : State → State) (accepts : ℕ → Bool)
    (tenant : TenantContext) (ticket_id : ℕ) (input : CreateMessageInput) (id delivery_id now : ℕ)
    (w : State) where
  abbrev pub named_ids : List ℕ
  named_ids = or_else input.attachment_ids []

  -- an attachment that the request names, of the ticket, uploaded, and of no message yet
  abbrev pub free : Ticket → Attachment → Bool
  free t a =
      any (λ x. x == a.id) named_ids
      && (a.organization_id == tenant.organization_id)
      && (a.ticket_id == t.id)
      && (a.status == AttachmentStatus.uploaded)
      && (a.message_id == none)

  abbrev pub sent : Ticket → TicketMessage
  sent t = record {
    id = id;
    organization_id = tenant.organization_id;
    ticket_id = t.id;
    author_membership_id = some tenant.membership_id;
    kind = input.kind;
    author_type = AuthorType.member;
    source = MessageSource.manual;
    body = input.body;
    created_at = now;
  }

  abbrev audited : Ticket → AuditLog
  audited t = record {
    organization_id = tenant.organization_id;
    actor_user_id = some tenant.user_id;
    actor_membership_id = some tenant.membership_id;
    actor_role = some tenant.role;
    action = Schema.ticket_message_created;
    entity_type = Schema.ticket_message;
    entity_id = some id;
    metadata =
        ("ticketId", Schema.key (some t.id))
        ∷ ("kind", Schema.message_kind input.kind)
        ∷ ("source", Schema.message_source MessageSource.manual)
        ∷ ("attachmentCount", Schema.amount (length named_ids))
        ∷ [];
    created_at = now;
  }

  abbrev pub reply_row : Ticket → EmailDelivery
  reply_row t =
      opened tenant.organization_id t.id id delivery_id now
        (address trim_lower (find_first (λ c. c.id == t.customer_id) w.customers))

  abbrev pub after_message : Ticket → State
  after_message t = record (others w) {
    messages = sent t ∷ (others w).messages;
    tickets =
        update_many (λ x. (x.id == t.id) && (x.organization_id == tenant.organization_id))
          (λ x. record x { updated_at = now }) (others w).tickets;
    attachments =
        update_many (free t) (λ a. record a { message_id = some id }) (others w).attachments;
    audit_logs = audited t ∷ (others w).audit_logs;
    deliveries = add_delivery (reply_row t) input.kind (others w).deliveries;
    published =
        announcement tenant.organization_id ticket_id id (reply_row t) input.kind
          (Published.message_created tenant.organization_id ticket_id id ∷ (others w).published);
    queued = queue_reply accepts (reply_row t) input.kind (others w).queued;
  }

  pub record MessageCreated (t : Ticket) : Type 0 where
    pub was_read : find_first (in_org tenant.organization_id ticket_id) w.tickets ≡ some t
    pub not_closed : input.kind ≡ MessageKind.public_reply → t.status ≢ TicketStatus.closed
    pub distinct : Distinct (λ i. i) named_ids
    pub all_free : count (free t) w.attachments ≡ length named_ids
    pub small : bytes_of (find_many (free t) w.attachments) ≤ 50 * 1024 * 1024
    pub all_taken : count (free t) (others w).attachments ≡ length named_ids
    pub result :
        create_message trim_lower others accepts tenant ticket_id input id delivery_id now w
        ≡ (ok (sent t), after_message t)

  abbrev written : Ticket → List ℕ → EmailDelivery → State
  written t ids d =
      let s = after_write tenant t input ids d id now (others w) in
      record s {
        published =
            announcement tenant.organization_id ticket_id id d input.kind
              (Published.message_created tenant.organization_id ticket_id id ∷ s.published);
        queued = queue_reply accepts d input.kind s.queued;
      }

  described :
      {t : Ticket}
      → Written trim_lower others accepts tenant ticket_id input id delivery_id now w t
      → MessageCreated t
  unfolding record_message record_for_tenant
  described {t} c =
      let (same, apart) = unique-Distinct named_ids c.no_duplicates in
      let fits =
        fits_bytes tenant.organization_id t.id named_ids w.attachments
          (subst (λ ids. Fit tenant.organization_id t.id ids w.attachments) same c.fit) in
      let call =
        create_message trim_lower others accepts tenant ticket_id input id delivery_id now w in
      record {
        was_read = c.was_read;
        not_closed = not_closed_lem input.kind t c.not_closed;
        distinct = apart;
        all_free = fits.0;
        small = fits.1;
        all_taken =
            subst
              (λ ids.
                count (available tenant.organization_id t.id ids) (others w).attachments
                ≡ length ids)
              same c.all_taken;
        result =
            subst (λ d. call ≡ (ok (sent t), written t named_ids d))
              (subst
                (λ r.
                  reply_delivery trim_lower others accepts tenant ticket_id input id delivery_id now
                    w t
                  ≡ opened tenant.organization_id t.id id delivery_id now r)
                (address_lem trim_lower t w.customers)
                (opened_lem tenant.organization_id t.id id delivery_id now
                  (recipient_of trim_lower (customer_email t w.customers))))
              (subst
                (λ ids. call ≡ (
                  ok (sent t),
                  written t ids (
                      reply_delivery trim_lower others accepts tenant ticket_id input id delivery_id
                        now w t),
                ))
                same c.result);
      }

  -- Whatever other requests do meanwhile, a call throws and leaves the state as they left it, or it
  -- returns. Then the ticket is the tenant's, and is not closed if the message is a public reply; the
  -- ids of the attachments are distinct; as many attachments as they are, of the ticket, uploaded and
  -- of no message, had them at the check, where they were at most 50 MiB together, and again when
  -- they were linked. The message is returned, and it, its links, the time of the ticket, one audit
  -- row, its events and, for a reply, its delivery and its job are added, and nothing else changes.
  pub create_message_outcome :
      ((e : Failure) × ((create_message trim_lower others accepts tenant ticket_id input id
              delivery_id now w
            ≡ (err e, w))
          ⊎ (create_message trim_lower others accepts tenant ticket_id input id delivery_id now w
              ≡ (err e, others w))))
      ⊎ ((t : Ticket) × MessageCreated t)
  create_message_outcome =
      elim (create_message_cases trim_lower others accepts tenant ticket_id input id delivery_id now
        w) [ inl failed ↦ inl failed | inr (t, c) ↦ inr (t, described c) ]
