-- ===== src/Tickets/Service.antt =====
-- Sequences of requests to TicketsService.
use opsdesk.Base.{ℕ, String, Bool, Option}
use opsdesk.Enums.{TicketStatus}
use opsdesk.State.{TenantContext, State}
use opsdesk.Tickets.Lifecycle.{Stamps}
use opsdesk.Tickets.Requests.{
  create-keeps, update-keeps, update_status-keeps, assign-keeps, add_tag-keeps, remove_tag-keeps,
  create_message-keeps,
}
use opsdesk.Tickets.{create, CreateTicketInput, update, UpdateTicketInput, update_status}
use opsdesk.Tickets.Assignment.{assign, add_tag, remove_tag}
use opsdesk.Tickets.Messages.{CreateMessageInput, create_message}

-- A request that writes, with the ids and the time that it draws.
pub data Request : Type 0 where
  to_create : CreateTicketInput → (id now : ℕ) → Request
  to_update : (ticket_id : ℕ) → UpdateTicketInput → (now : ℕ) → Request
  to_change_status : (ticket_id : ℕ) → TicketStatus → (now : ℕ) → Request
  to_assign : (ticket_id : ℕ) → Option ℕ → (now : ℕ) → Request
  to_tag to_untag : (ticket_id tag_id now : ℕ) → Request
  to_send : (ticket_id : ℕ) → CreateMessageInput → (id delivery_id now : ℕ) → Request

module _ (trim_lower : String → String) (accepts : ℕ → Bool) where
  unfoldable pub serve : (State → State) → TenantContext → Request → State → State
  serve others tenant (to_create input id now) w = (create others tenant input id now w).1
  serve others tenant (to_update ticket_id input now) w =
      (update others tenant ticket_id input now w).1
  serve others tenant (to_change_status ticket_id next now) w =
      (update_status others tenant ticket_id next now w).1
  serve others tenant (to_assign ticket_id membership_id now) w =
      (assign others tenant ticket_id membership_id now w).1
  serve others tenant (to_tag ticket_id tag_id now) w =
      (add_tag others tenant ticket_id tag_id now w).1
  serve others tenant (to_untag ticket_id tag_id now) w =
      (remove_tag others tenant ticket_id tag_id now w).1
  serve others tenant (to_send ticket_id input id delivery_id now) w =
      (create_message trim_lower others accepts tenant ticket_id input id delivery_id now w).1

  -- In every ticket the time stamps agree with the status after a request if they did before:
  -- open and pending tickets have none, resolved ones were resolved, closed ones resolved and
  -- closed. What other requests commit in between keeps that too.
  pub serve-Stamps :
      (others : State → State) (tenant : TenantContext) (r : Request) (w : State)
      → ((v : State) → Stamps v → Stamps (others v))
      → Stamps w
      → Stamps (serve others tenant r w)
  unfolding serve
  serve-Stamps others tenant (to_create input id now) w keep =
      (create-keeps others keep tenant input id now).at w
  serve-Stamps others tenant (to_update ticket_id input now) w keep =
      (update-keeps others keep tenant ticket_id input now).at w
  serve-Stamps others tenant (to_change_status ticket_id next now) w keep =
      (update_status-keeps others keep tenant ticket_id next now).at w
  serve-Stamps others tenant (to_assign ticket_id membership_id now) w keep =
      (assign-keeps others keep tenant ticket_id membership_id now).at w
  serve-Stamps others tenant (to_tag ticket_id tag_id now) w keep =
      (add_tag-keeps others keep tenant ticket_id tag_id now).at w
  serve-Stamps others tenant (to_untag ticket_id tag_id now) w keep =
      (remove_tag-keeps others keep tenant ticket_id tag_id now).at w
  serve-Stamps others tenant (to_send ticket_id input id delivery_id now) w keep =
      (create_message-keeps others keep trim_lower accepts tenant ticket_id input id delivery_id
          now).at
        w
