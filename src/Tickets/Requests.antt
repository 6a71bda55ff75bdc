-- ===== src/Tickets/Requests.antt =====
-- The methods of TicketsService that write, as one type of requests, and what they keep together.
use opsdesk.Base.{
  All, modify, reject, by_reject, by_bind, by_then, by_guard, by_modify, Progress, ℕ, String, ◌≡◌,
  sym, subst, Bool, Option, ◌∷◌,
}
use opsdesk.Enums.{TicketStatus, role_eq}
use opsdesk.Schema.{Ticket}
use opsdesk.State.{TenantContext, State}
use opsdesk.Tickets.Lifecycle.{
  by_touch, by_require, Stamps-Preorder, Stamped, KeepsStamps, steps, by_update_ticket,
  by_set_status,
}
use opsdesk.Tickets.{
  create, CreateTicketInput, update, UpdateTicketInput, update_status, write_update,
}
use opsdesk.Tickets.Assignment.{assign, add_tag, remove_tag, write_assignee}
use opsdesk.Tickets.Messages.{CreateMessageInput, create_message}
use opsdesk.Tickets.Parts.{
  record_update-keeps, record_assignee-keeps, check_assignee-keeps, require_tag-keeps,
  link_tag-keeps, unlink_tag-keeps, find_one-keeps, check_attachments-keeps, write_message-keeps,
  announce-keeps,
}
use opsdesk.Tickets.Queries.{in_org, touch_tickets, require_ticket}

-- a relation on the tickets alone
pub same_tickets : (w w' : State) → w'.tickets ≡ w.tickets → KeepsStamps w w'
same_tickets w w' same a = subst (λ ts. All Stamped ts) (sym same) a

by_touch_time :
    (org id now : ℕ)
    → Progress KeepsStamps (touch_tickets (in_org org id) (λ x. record x { updated_at = now }))
by_touch_time org id now = by_touch (in_org org id) _ (λ x _ h. h)

by_new_ticket :
    (t : Ticket)
    → Stamped t
    → Progress KeepsStamps (modify (λ w. record w { tickets = t ∷ w.tickets }))
by_new_ticket t s = by_modify _ (λ w a. (s, a))

module _ (others : State → State) (others-keep : (w : State) → KeepsStamps w (others w)) where
  by_others : Progress KeepsStamps (modify others)
  by_others = by_modify others others-keep

  pub create-keeps :
      (tenant : TenantContext) (input : CreateTicketInput) (id now : ℕ)
      → Progress KeepsStamps (create others tenant input id now)
  unfolding create
  create-keeps tenant input id now = search (steps, by_others, by_new_ticket) depth 12

  pub update-keeps :
      (tenant : TenantContext) (ticket_id : ℕ) (input : UpdateTicketInput) (now : ℕ)
      → Progress KeepsStamps (update others tenant ticket_id input now)
  unfolding update write_update
  update-keeps tenant ticket_id input now =
      search (steps, by_others, by_update_ticket, record_update-keeps, same_tickets) depth 14

  pub update_status-keeps :
      (tenant : TenantContext) (ticket_id : ℕ) (next : TicketStatus) (now : ℕ)
      → Progress KeepsStamps (update_status others tenant ticket_id next now)
  unfolding update_status
  update_status-keeps tenant ticket_id next now =
      search (steps, by_others, by_guard, by_set_status) depth 14

  pub assign-keeps :
      (tenant : TenantContext) (ticket_id : ℕ) (membership_id : Option ℕ) (now : ℕ)
      → Progress KeepsStamps (assign others tenant ticket_id membership_id now)
  unfolding assign write_assignee
  assign-keeps tenant ticket_id membership_id now =
      search
        (
          steps, by_others, by_update_ticket, check_assignee-keeps, record_assignee-keeps,
          same_tickets,
        )
        depth 14

  pub add_tag-keeps :
      (tenant : TenantContext) (ticket_id tag_id now : ℕ)
      → Progress KeepsStamps (add_tag others tenant ticket_id tag_id now)
  unfolding add_tag
  add_tag-keeps tenant ticket_id tag_id now =
      search (steps, by_others, require_tag-keeps, link_tag-keeps, find_one-keeps, same_tickets)
        depth 14

  pub remove_tag-keeps :
      (tenant : TenantContext) (ticket_id tag_id now : ℕ)
      → Progress KeepsStamps (remove_tag others tenant ticket_id tag_id now)
  unfolding remove_tag
  remove_tag-keeps tenant ticket_id tag_id now =
      search (steps, by_others, require_tag-keeps, unlink_tag-keeps, find_one-keeps, same_tickets)
        depth 14

  pub create_message-keeps :
      (trim_lower : String → String) (accepts : ℕ → Bool) (tenant : TenantContext) (ticket_id : ℕ)
      (input : CreateMessageInput) (id delivery_id now : ℕ)
      → Progress KeepsStamps
          (create_message trim_lower others accepts tenant ticket_id input id delivery_id now)
  unfolding create_message
  create_message-keeps trim_lower accepts tenant ticket_id input id delivery_id now =
      by_then Stamps-Preorder (reject _ _) _ (by_reject Stamps-Preorder _ _) (
        by_bind Stamps-Preorder (require_ticket tenant.organization_id ticket_id) _
          (by_require tenant.organization_id ticket_id)
          (λ t.
            search
              (
                steps, by_others, check_attachments-keeps, write_message-keeps, announce-keeps,
                same_tickets, by_touch_time,
              )
              depth 14 fits 5000))
