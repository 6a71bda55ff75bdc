-- ===== src/Realtime.antt =====
-- The gateway of apps/api/src/realtime/realtime.gateway.ts, with realtime.rooms.ts: the handlers
-- of one socket. A handler answers and changes `client.data`; its calls of `join`, `leave` and
-- `emit` are recorded, the newest first. A UUID that does not parse is `none`.
pub mod Rooms
pub mod Messages
pub mod Leaving
pub mod Forgetting
pub mod Subscriptions
pub mod Refinement
pub mod Runs
pub mod Delivery
pub mod Parting
use opsdesk.Schema.{User}
use opsdesk.Base.{
  if◌then◌else◌, ◌==◌, ◌!=◌, Result, ok, err, ℕ, String, Bool, true, false, not, Option, none, some,
  List, [], ◌∷◌, nat_eq, string_eq,
}
use opsdesk.Enums.{Role}
use opsdesk.State.{State, TenantContext}
use opsdesk.Rbac
use opsdesk.Tenancy.{UserProfile, resolve, sync_authenticated_user}
use opsdesk.Tickets.Queries.{exists_in_organization}
use Rooms.{RoomCall, user_room, organization_room, ticket_room, join, leave, lookup, put, remove}
use opsdesk.Rbac.{has_permission}

pub record JoinedTicket : Type 0 where
  pub organization_id : ℕ
  pub ticket_id : ℕ

pub data Emitted : Type 0 where
  ready : Emitted
  organization_joined : (organization_id membership_id : ℕ) → Role → Emitted
  organization_left : (organization_id : ℕ) → Emitted
  ticket_joined ticket_left : JoinedTicket → Emitted

-- The socket: `client.data` and the calls made on it.
pub record Client : Type 0 where
  pub user_id : ℕ
  pub tenants : List (ℕ × TenantContext)
  pub tickets : List (ℕ × JoinedTicket)
  pub calls : List RoomCall
  pub emitted : List Emitted

pub data ErrorCode : Type 0 where
  missing_access_token invalid_access_token invalid_organization_id invalid_ticket_id : ErrorCode
  organization_not_found organization_not_joined : ErrorCode
  ticket_access_denied ticket_not_found ticket_not_joined : ErrorCode

pub data Reply : Type 0 where
  accepted : Reply
  refused : ErrorCode → Reply

-- what a query returns where it does not throw
abbrev found : {A : Type 0} → Result (Option A) → Option A
found (ok a) = a
found (err e) = none

abbrev pub tenant_at : State → ℕ → ℕ → Option TenantContext
tenant_at w user_id organization_id = found (resolve user_id organization_id w).0

abbrev call : RoomCall → Client → Client
call x c = record c { calls = x ∷ c.calls }

abbrev emit : Emitted → Client → Client
emit e c = record c { emitted = e ∷ c.emitted }

-- `handleConnection`, on the user that the middleware of `afterInit` set
unfoldable pub connect : ℕ → Client
connect user_id = record {
  user_id = user_id;
  tenants = [];
  tickets = [];
  calls = join (user_room user_id) ∷ [];
  emitted = ready ∷ [];
}

admit : Result User × State → (Reply × Option ℕ) × State
admit (ok u, w) = ((accepted, some u.id), w)
admit (err e, w) = ((refused invalid_access_token, none), w)

sign_in : (String → String) → Option UserProfile → ℕ → State → (Reply × Option ℕ) × State
unfolding admit
sign_in trim_lower none id w = ((refused invalid_access_token, none), w)
sign_in trim_lower (some p) id w = admit (sync_authenticated_user trim_lower p id w)

-- The middleware of `afterInit`: its answer and the user that it sets. `profile_of` stands for the
-- verification of the token and the identity provider's answer, `none` if one of these throws.
unfoldable pub authenticate :
    (String → String)
    → (String → Option UserProfile)
    → Option String
    → ℕ
    → State
    → (Reply × Option ℕ) × State
unfolding sign_in
authenticate trim_lower profile_of none id w = ((refused missing_access_token, none), w)
authenticate trim_lower profile_of (some token) id w =
    if token == ""
    then ((refused missing_access_token, none), w)
    else sign_in trim_lower (profile_of token) id w

-- what `joinOrganization` does with the tenant that it resolved
join_resolved : Option TenantContext → Client → Reply × Client
join_resolved none c = (refused organization_not_found, c)
join_resolved (some tenant) c =
    let joined = call (join (organization_room tenant.organization_id)) c in
    let kept = record joined { tenants = put tenant.organization_id tenant joined.tenants } in
    (
      accepted,
      emit (organization_joined tenant.organization_id tenant.membership_id tenant.role) kept,
    )

-- `w` is the database at the query; `meanwhile` what the socket's other messages do during it.
unfoldable pub join_organization : State → (Client → Client) → Option ℕ → Client → Reply × Client
unfolding join_resolved
join_organization w meanwhile none c = (refused invalid_organization_id, c)
join_organization w meanwhile (some organization_id) c =
    join_resolved (tenant_at w c.user_id organization_id) (meanwhile c)

abbrev leave_joined : JoinedTicket → Client → Client
leave_joined t c =
    let left = call (leave (ticket_room t.organization_id t.ticket_id)) c in
    record left { tickets = remove t.ticket_id left.tickets }

-- one round of the loop of `leaveAllOrganizationTickets`
unfoldable pub leave_matching : ℕ → JoinedTicket → Client → Client
leave_matching organization_id t c =
    if t.organization_id != organization_id then c else leave_joined t c

-- the loop, over the values that it read first
unfoldable pub leave_each : ℕ → List (ℕ × JoinedTicket) → Client → Client
leave_each organization_id [] c = c
leave_each organization_id ((k, t) ∷ rest) c =
    leave_each organization_id rest (leave_matching organization_id t c)

abbrev pub leave_all_organization_tickets : ℕ → Client → Client
leave_all_organization_tickets organization_id c = leave_each organization_id c.tickets c

-- the tickets, then the room, then the cached tenant
unfoldable pub forget_organization : ℕ → Client → Client
forget_organization organization_id c =
    let left =
      call (leave (organization_room organization_id))
        (leave_all_organization_tickets organization_id c) in
    record left { tenants = remove organization_id left.tenants }

unfoldable pub leave_organization : Option ℕ → Client → Reply × Client
leave_organization none c = (refused invalid_organization_id, c)
leave_organization (some organization_id) c = elim (lookup organization_id c.tenants) [
  | none ↦ (refused organization_not_joined, c)
  | some tenant ↦
      (accepted, emit (organization_left organization_id) (forget_organization organization_id c))
]

-- what `joinTicket` does with the answer of `existsInOrganization`
join_existing : Bool → ℕ → ℕ → Client → Reply × Client
join_existing false organization_id ticket_id c = (refused ticket_not_found, c)
join_existing true organization_id ticket_id c =
    let t : JoinedTicket = record { organization_id = organization_id; ticket_id = ticket_id } in
    let joined = call (join (ticket_room organization_id ticket_id)) c in
    (accepted, emit (ticket_joined t) (record joined { tickets = put ticket_id t joined.tickets }))

abbrev pub exists_at : State → ℕ → ℕ → Bool
exists_at w organization_id ticket_id =
    elim (exists_in_organization organization_id ticket_id w).0 [ ok b ↦ b | err e ↦ false ]

-- what `joinTicket` does with the tenant that it resolved again
join_readable : State → (Client → Client) → ℕ → ℕ → Option TenantContext → Client → Reply × Client
unfolding join_existing
join_readable w meanwhile organization_id ticket_id none c =
    (refused organization_not_found, forget_organization organization_id c)
join_readable w meanwhile organization_id ticket_id (some tenant) c =
    let refreshed = record c { tenants = put organization_id tenant c.tenants } in
    if not (has_permission tenant.role Rbac.tickets_read)
    then (refused ticket_access_denied, refreshed)
    else join_existing (exists_at w tenant.organization_id ticket_id) tenant.organization_id
        ticket_id (meanwhile refreshed)

-- `w` and `w'` are the database at the two queries; `during` and `after` what the socket's other
-- messages do while these run.
unfoldable pub join_ticket :
    (w w' : State) (during after : Client → Client) → Option ℕ → Option ℕ → Client → Reply × Client
unfolding join_readable
join_ticket w w' during after none ticket c = (refused invalid_organization_id, c)
join_ticket w w' during after (some organization_id) none c = (refused invalid_ticket_id, c)
join_ticket w w' during after (some organization_id) (some ticket_id) c =
    elim (lookup organization_id c.tenants) [
      | none ↦ (refused organization_not_joined, c)
      | some cached ↦
          join_readable w' after organization_id ticket_id (tenant_at w c.user_id organization_id)
            (during c)
    ]

leave_known : ℕ → ℕ → Option JoinedTicket → Client → Reply × Client
leave_known organization_id ticket_id none c = (refused ticket_not_joined, c)
leave_known organization_id ticket_id (some t) c =
    if t.organization_id != organization_id then (refused ticket_not_joined, c) else (
      accepted,
      emit (ticket_left (record { organization_id = organization_id; ticket_id = ticket_id }))
          (leave_joined (record { organization_id = organization_id; ticket_id = ticket_id }) c),
    )

unfoldable pub leave_ticket : Option ℕ → Option ℕ → Client → Reply × Client
unfolding leave_known
leave_ticket none ticket c = (refused invalid_organization_id, c)
leave_ticket (some organization_id) none c = (refused invalid_ticket_id, c)
leave_ticket (some organization_id) (some ticket_id) c =
    leave_known organization_id ticket_id (lookup ticket_id c.tickets) c
