-- ===== src/Tickets/Assignment.antt =====
-- `assign`, `addTag` and `removeTag` of TicketsService.
use opsdesk.Base.{
  ltb, if◌then◌else◌, ◌==◌, ◌!=◌, find_first, find_many, count, delete_many, any, pure, gets,
  or_throw, transaction, modify, reject, is_none, bad_request, not_found, ℕ, Bool, ◌&&◌, Option,
  none, some, List, [], ◌∷◌, ◌>>=◌, ◌>>◌, nat_eq, option_eq,
}
use opsdesk.Enums.{Role, role_eq}
use opsdesk.Schema
use opsdesk.Schema.{Membership, Ticket, TicketTag, Tag}
use opsdesk.State.{TenantContext, State, Action, Published}
use opsdesk.Audit.{record_for_tenant}
use opsdesk.Tickets.Queries.{publish, require_ticket, update_ticket}

abbrev pub is_member : ℕ → ℕ → Membership → Bool
is_member org membership_id m = (m.id == membership_id) && (m.organization_id == org)

-- the checks on the membership that a ticket is assigned to; `none` takes the assignee away
unfoldable pub check_assignee : ℕ → Option ℕ → Action Unit
check_assignee org none = pure tt
check_assignee org (some membership_id) = do
  found ← gets (λ w. find_first (is_member org membership_id) w.memberships)
  membership ← or_throw found (not_found "Assignee not found")
  reject (membership.role == Role.viewer) (bad_request "Viewers cannot be assigned tickets")

abbrev pub with_assignee : Option ℕ → ℕ → Ticket → Ticket
with_assignee membership_id now t = record t {
  assignee_membership_id = membership_id;
  updated_at = now;
}

unfoldable pub record_assignee : TenantContext → Ticket → Option ℕ → ℕ → Action Unit
unfolding record_for_tenant
record_assignee tenant ticket membership_id now =
    if ticket.assignee_membership_id != membership_id
    then record_for_tenant tenant Schema.ticket_assignee_changed Schema.ticket ticket.id
        (("fromMembershipId", Schema.key ticket.assignee_membership_id)
          ∷ ("toMembershipId", Schema.key membership_id)
          ∷ [])
        now
    else pure tt

-- the writes of `assign`
unfoldable pub write_assignee : TenantContext → Ticket → Option ℕ → ℕ → Action Ticket
unfolding record_assignee
write_assignee tenant ticket membership_id now = do
  result ← transaction (do
    result ← update_ticket ticket.id (with_assignee membership_id now)
    record_assignee tenant ticket membership_id now
    pure result)
  publish (Published.ticket_updated tenant.organization_id result.id)
  pure result

unfoldable pub assign : (State → State) → TenantContext → ℕ → Option ℕ → ℕ → Action Ticket
unfolding write_assignee
assign others tenant ticket_id membership_id now = do
  ticket ← require_ticket tenant.organization_id ticket_id
  check_assignee tenant.organization_id membership_id
  modify others
  write_assignee tenant ticket membership_id now

abbrev pub is_tag : ℕ → ℕ → Tag → Bool
is_tag org tag_id g = (g.id == tag_id) && (g.organization_id == org)

unfoldable pub require_tag : ℕ → ℕ → Action Tag
require_tag org tag_id = do
  found ← gets (λ w. find_first (is_tag org tag_id) w.tags)
  or_throw found (not_found "Tag not found")

abbrev pub is_link : ℕ → ℕ → TicketTag → Bool
is_link ticket_id tag_id l = (l.ticket_id == ticket_id) && (l.tag_id == tag_id)

unfoldable pub add_link : TenantContext → ℕ → ℕ → ℕ → Action Unit
unfolding record_for_tenant
add_link tenant ticket_id tag_id now = do
  modify (λ w. record w {
    ticket_tags = record { ticket_id = ticket_id; tag_id = tag_id } ∷ w.ticket_tags;
  })
  record_for_tenant tenant Schema.ticket_tag_added Schema.ticket ticket_id
      (("tagId", Schema.key (some tag_id)) ∷ []) now

unfoldable pub record_removal : TenantContext → ℕ → ℕ → ℕ → Action Unit
unfolding record_for_tenant
record_removal tenant ticket_id tag_id now =
    record_for_tenant tenant Schema.ticket_tag_removed Schema.ticket ticket_id
      (("tagId", Schema.key (some tag_id)) ∷ []) now

unfoldable pub link_tag : TenantContext → ℕ → ℕ → ℕ → Action Unit
unfolding add_link
link_tag tenant ticket_id tag_id now = do
  existing ← gets (λ w. find_first (is_link ticket_id tag_id) w.ticket_tags)
  if is_none existing then add_link tenant ticket_id tag_id now else pure tt

unfoldable pub unlink_tag : TenantContext → ℕ → ℕ → ℕ → Action Unit
unfolding record_removal
unlink_tag tenant ticket_id tag_id now = do
  removed ← gets (λ w. count (is_link ticket_id tag_id) w.ticket_tags)
  modify (λ w. record w { ticket_tags = delete_many (is_link ticket_id tag_id) w.ticket_tags })
  if ltb 0 removed then record_removal tenant ticket_id tag_id now else pure tt

-- the ticket with its tags, as `findOne` returns it; the order of the tags by name is not modelled
abbrev tags_of : ℕ → List TicketTag → List Tag → List Tag
tags_of ticket_id links tags = find_many (λ g. any (is_link ticket_id g.id) links) tags

unfoldable pub find_one : ℕ → ℕ → Action (Ticket × List Tag)
find_one org ticket_id = do
  ticket ← require_ticket org ticket_id
  tags ← gets (λ w. tags_of ticket.id w.ticket_tags w.tags)
  pure (ticket, tags)

unfoldable pub add_tag : (State → State) → TenantContext → ℕ → ℕ → ℕ → Action (Ticket × List Tag)
add_tag others tenant ticket_id tag_id now = do
  ticket ← require_ticket tenant.organization_id ticket_id
  tag ← require_tag tenant.organization_id tag_id
  modify others
  transaction (link_tag tenant ticket.id tag.id now)
  result ← find_one tenant.organization_id ticket.id
  publish (Published.ticket_updated tenant.organization_id ticket.id)
  pure result

unfoldable pub remove_tag : (State → State) → TenantContext → ℕ → ℕ → ℕ → Action (Ticket × List Tag)
remove_tag others tenant ticket_id tag_id now = do
  ticket ← require_ticket tenant.organization_id ticket_id
  tag ← require_tag tenant.organization_id tag_id
  modify others
  transaction (unlink_tag tenant ticket.id tag.id now)
  result ← find_one tenant.organization_id ticket.id
  publish (Published.ticket_updated tenant.organization_id ticket.id)
  pure result
