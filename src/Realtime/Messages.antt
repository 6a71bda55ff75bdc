-- ===== src/Realtime/Messages.antt =====
-- The messages of a socket, and what its rooms are meant to be: the organizations and tickets that
-- `client.data` names.
use opsdesk.Base.{
  ◌==◌, All, is_none, ℕ, ◌≡◌, refl, Bool, false, not, Option, none, some, arith, nat_eq,
}
use opsdesk.State.{State}
use opsdesk.Realtime.Rooms.{user_room, organization_room, ticket_room, is_in, lookup}
use opsdesk.Realtime.{
  Client, JoinedTicket, Reply, connect, join_organization, join_ticket, leave_organization,
  leave_ticket,
}

pub data Message : Type 0 where
  to_join_organization to_leave_organization : Option ℕ → Message
  to_join_ticket to_leave_ticket : (organization_id ticket_id : Option ℕ) → Message

-- A message that the socket's other messages do not overlap; `w` and `w'` are the database at its
-- queries.
unfoldable pub serve : (w w' : State) → Message → Client → Reply × Client
serve w w' (to_join_organization o) c = join_organization w (λ c. c) o c
serve w w' (to_leave_organization o) c = leave_organization o c
serve w w' (to_join_ticket o t) c = join_ticket w w' (λ c. c) (λ c. c) o t c
serve w w' (to_leave_ticket o t) c = leave_ticket o t c

-- whether an entry of `client.data.tickets` is of the organization
abbrev pub holds : ℕ → Option JoinedTicket → Bool
holds o none = false
holds o (some j) = j.organization_id == o

-- A ticket stays in its organization, which `owner` names.
abbrev pub Owned : (ℕ → ℕ) → State → Type 0
Owned owner w = All (λ t. t.organization_id ≡ owner t.id) w.tickets

-- An entry stands under its ticket's id, with its organization, which is joined.
abbrev pub IsEntry : (ℕ → ℕ) → Client → ℕ × JoinedTicket → Type 0
IsEntry owner c e =
    (e.1.ticket_id ≡ e.0)
    × (e.1.organization_id ≡ owner e.0)
    × (is_none (lookup e.1.organization_id c.tenants) ≡ false)

-- The socket is in its user's room, in the rooms of the organizations that it joined and in those
-- of the tickets that it joined, and in no other; its tickets are in its organizations.
pub record Synced (owner : ℕ → ℕ) (c : Client) : Type 0 where
  pub users : (u : ℕ) → is_in (user_room u) c.calls ≡ (c.user_id == u)
  pub organizations :
      (o : ℕ) → is_in (organization_room o) c.calls ≡ not (is_none (lookup o c.tenants))
  pub tickets : (o t : ℕ) → is_in (ticket_room o t) c.calls ≡ holds o (lookup t c.tickets)
  pub entries : All (IsEntry owner c) c.tickets

pub connect-Synced : (owner : ℕ → ℕ) (user_id : ℕ) → Synced owner (connect user_id)
unfolding connect is_in lookup
connect-Synced owner user_id = record {
  users = λ u. ground arith;
  organizations = λ o. refl;
  tickets = λ o t. refl;
  entries = tt;
}
