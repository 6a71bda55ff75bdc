-- ===== src/Tickets/Parts.antt =====
-- The parts of the methods of TicketsService that write no ticket, seen through any preorder on
-- states that looks at the tickets only.
use opsdesk.Base.{
  ◌==◌, find_first, gets, or_throw, modify, unexpected, by_pure, by_throw, by_gets, by_or_throw,
  by_if, by_transaction, by_reject, by_bind, by_then, by_modify, Preorder, Progress, ℕ, String, ◌≡◌,
  refl, Bool, Option, none, some, List, [], ◌∷◌, nat_eq,
}
use opsdesk.Enums.{role_eq, MessageKind}
use opsdesk.Schema.{Ticket, EmailDelivery}
use opsdesk.State.{TenantContext, State}
use opsdesk.Tickets.{UpdateTicketInput, record_update}
use opsdesk.Tickets.Assignment.{
  check_assignee, record_assignee, require_tag, link_tag, unlink_tag, find_one, add_link,
  record_removal,
}
use opsdesk.Tickets.{record_fields}
use opsdesk.Tickets.Messages.{
  CreateMessageInput, check_attachments, write_message, announce_delivery, link_attachments,
  record_message, open_delivery,
}
use opsdesk.Tickets.Queries.{require_ticket}
use opsdesk.Base.{
  ◌==◌, find_first, gets, or_throw, modify, unexpected, by_pure, by_throw, by_gets, by_or_throw,
  by_if, by_transaction, by_reject, by_bind, by_then, by_modify, Preorder, Progress, ℕ, String, ◌≡◌,
  refl, Bool, Option, none, some, List, [], ◌∷◌, nat_eq,
}
use opsdesk.Schema.{AuditAction, AuditEntityType}
use opsdesk.State.{Published}
use opsdesk.Audit.{record_for_tenant, Metadata}
use opsdesk.Tickets.Queries.{publish, touch_tickets, update_ticket, in_org}

pub ruleset actions =
    (by_pure, by_throw, by_gets, by_or_throw, by_if, by_transaction, by_reject, by_bind, by_then)

module _ {R : State → State → Type 0} (o : Preorder R)
    (same : (w w' : State) → w'.tickets ≡ w.tickets → R w w') where
  pub by_tables :
      (f : State → State) → ((w : State) → (f w).tickets ≡ w.tickets) → Progress R (modify f)
  by_tables f unread = by_modify f (λ w. same w (f w) (unread w))

  pub by_event : (e : Published) → Progress R (publish e)
  by_event e = by_tables _ (λ w. refl)

  pub by_audit :
      (tenant : TenantContext) (action : AuditAction) (entity : AuditEntityType) (id : ℕ)
      (metadata : Metadata) (now : ℕ)
      → Progress R (record_for_tenant tenant action entity id metadata now)
  unfolding record_for_tenant
  by_audit tenant action entity id metadata now = by_tables _ (λ w. refl)

  pub by_require : (org ticket_id : ℕ) → Progress R (require_ticket org ticket_id)
  unfolding require_ticket
  by_require org ticket_id = search (by_bind, by_gets, by_or_throw)

  pub by_update_ticket :
      (id : ℕ) (f : Ticket → Ticket)
      → Progress R (touch_tickets (λ t. t.id == id) f)
      → Progress R (update_ticket id f)
  unfolding update_ticket
  by_update_ticket id f touched =
      by_bind o (gets (λ w. find_first (λ t. t.id == id) w.tickets)) _ (by_gets o _) (λ found.
        by_bind o (or_throw found (unexpected "P2025")) _ (by_or_throw o found _) (λ current.
          by_then o (touch_tickets (λ t. t.id == id) f) _ touched (by_pure o (f current))))

  pub record_fields-keeps :
      (tenant : TenantContext) (input : UpdateTicketInput) (t : Ticket) (now : ℕ) (fs : List String)
      → Progress R (record_fields tenant input t now fs)
  unfolding record_fields
  record_fields-keeps tenant input t now [] = search (actions, by_event, by_audit, by_require)
  record_fields-keeps tenant input t now (f ∷ fs) = search (actions, by_event, by_audit, by_require)

  pub record_update-keeps :
      (tenant : TenantContext) (input : UpdateTicketInput) (t : Ticket) (now : ℕ)
      → Progress R (record_update tenant input t now)
  unfolding record_update
  record_update-keeps tenant input t now = record_fields-keeps tenant input t now _

  pub record_assignee-keeps :
      (tenant : TenantContext) (t : Ticket) (membership_id : Option ℕ) (now : ℕ)
      → Progress R (record_assignee tenant t membership_id now)
  unfolding record_assignee
  record_assignee-keeps tenant t membership_id now =
      search (actions, by_event, by_audit, by_require) depth 8

  pub check_assignee-keeps :
      (org : ℕ) (membership_id : Option ℕ) → Progress R (check_assignee org membership_id)
  unfolding check_assignee
  check_assignee-keeps org none = search (actions, by_event, by_audit, by_require)
  check_assignee-keeps org (some id) = search (actions, by_event, by_audit, by_require) depth 8

  pub require_tag-keeps : (org tag_id : ℕ) → Progress R (require_tag org tag_id)
  unfolding require_tag
  require_tag-keeps org tag_id = search (actions, by_event, by_audit, by_require) depth 8

  pub find_one-keeps : (org ticket_id : ℕ) → Progress R (find_one org ticket_id)
  unfolding find_one
  find_one-keeps org ticket_id = search (actions, by_event, by_audit, by_require) depth 8

  pub link_tag-keeps :
      (tenant : TenantContext) (ticket_id tag_id now : ℕ)
      → Progress R (link_tag tenant ticket_id tag_id now)
  unfolding link_tag add_link
  link_tag-keeps tenant ticket_id tag_id now =
      search (actions, by_event, by_audit, by_require, by_tables) depth 10

  pub unlink_tag-keeps :
      (tenant : TenantContext) (ticket_id tag_id now : ℕ)
      → Progress R (unlink_tag tenant ticket_id tag_id now)
  unfolding unlink_tag record_removal
  unlink_tag-keeps tenant ticket_id tag_id now =
      search (actions, by_event, by_audit, by_require, by_tables) depth 10

  pub check_attachments-keeps :
      (org ticket_id : ℕ) (ids : List ℕ) → Progress R (check_attachments org ticket_id ids)
  unfolding check_attachments
  check_attachments-keeps org ticket_id ids =
      search (actions, by_event, by_audit, by_require) depth 10

  pub link_attachments-keeps :
      (org ticket_id : ℕ) (ids : List ℕ) (message_id : ℕ)
      → Progress R (link_attachments org ticket_id ids message_id)
  unfolding link_attachments
  link_attachments-keeps org ticket_id ids message_id =
      search (actions, by_event, by_audit, by_require, by_tables) depth 10

  pub open_delivery-keeps :
      (d : EmailDelivery) (kind : MessageKind) → Progress R (open_delivery d kind)
  unfolding open_delivery
  open_delivery-keeps d MessageKind.internal_note = search (actions, by_event, by_audit, by_require)
  open_delivery-keeps d MessageKind.public_reply =
      search (actions, by_event, by_audit, by_require, by_tables) depth 8

  pub record_message-keeps :
      (tenant : TenantContext) (ticket_id : ℕ) (input : CreateMessageInput) (ids : List ℕ)
      (id now : ℕ)
      → Progress R (record_message tenant ticket_id input ids id now)
  unfolding record_message
  record_message-keeps tenant ticket_id input ids id now =
      search (actions, by_event, by_audit, by_require)

  pub announce-keeps :
      (accepts : ℕ → Bool) (org ticket_id message_id : ℕ) (d : Option EmailDelivery)
      → Progress R (announce_delivery accepts org ticket_id message_id d)
  unfolding announce_delivery
  announce-keeps accepts org ticket_id message_id none =
      search (actions, by_event, by_audit, by_require)
  announce-keeps accepts org ticket_id message_id (some d) =
      search (actions, by_event, by_audit, by_require, by_tables) depth 8

  -- where a new time of the last update is no change either
  module _ (tenant : TenantContext)
      (touch : (id now : ℕ)
        → Progress R (
            touch_tickets
              (in_org tenant.organization_id id)
              (λ x. record x { updated_at = now }))) where
    touched :
        (id now : ℕ)
        → Progress R
            (touch_tickets (in_org tenant.organization_id id) (λ x. record x { updated_at = now }))
    touched id now = touch id now

    pub write_message-keeps :
        (t : Ticket) (input : CreateMessageInput) (ids : List ℕ) (d : EmailDelivery) (id now : ℕ)
        → Progress R (write_message tenant t input ids d id now)
    unfolding write_message
    write_message-keeps t input ids d id now =
        search
          (
            actions, touched, by_tables, link_attachments-keeps, record_message-keeps,
            open_delivery-keeps,
          )
          depth 20
