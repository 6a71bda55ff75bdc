-- ===== src/Tickets/Queries.antt =====
-- Reads and writes that the methods of TicketsService share.
use opsdesk.Base.{
  ◌==◌, find_first, update_many, pure, gets, or_throw, modify, is_none, not_found, unexpected, ℕ,
  Bool, not, ◌&&◌, ◌∷◌, ◌>>=◌, ◌>>◌, nat_eq,
}
use opsdesk.Schema.{Ticket}
use opsdesk.State.{Action, Published}

-- `where: { id, organizationId }`
abbrev pub in_org : ℕ → ℕ → Ticket → Bool
in_org org ticket_id t = (t.id == ticket_id) && (t.organization_id == org)

unfoldable pub require_ticket : ℕ → ℕ → Action Ticket
require_ticket org ticket_id = do
  found ← gets (λ w. find_first (in_org org ticket_id) w.tickets)
  or_throw found (not_found "Ticket not found")

abbrev pub touch_tickets : (Ticket → Bool) → (Ticket → Ticket) → Action Unit
touch_tickets p f = modify (λ w. record w { tickets = update_many p f w.tickets })

-- `ticket.update({ where: { id } })`: the row as it is now, changed; Prisma throws where none is
unfoldable pub update_ticket : ℕ → (Ticket → Ticket) → Action Ticket
update_ticket ticket_id f = do
  found ← gets (λ w. find_first (λ t. t.id == ticket_id) w.tickets)
  current ← or_throw found (unexpected "P2025")
  touch_tickets (λ t. t.id == ticket_id) f
  pure (f current)

abbrev pub publish : Published → Action Unit
publish event = modify (λ w. record w { published = event ∷ w.published })

unfoldable pub exists_in_organization : ℕ → ℕ → Action Bool
exists_in_organization org ticket_id = do
  found ← gets (λ w. find_first (in_org org ticket_id) w.tickets)
  pure (not (is_none found))
