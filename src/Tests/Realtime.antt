-- ===== src/Tests/Realtime.antt =====
-- A socket of Cat, an agent of organization 1 that has the tickets 1 and 2.
use opsdesk.Base.{find_first, any, ℕ, ◌≡◌, refl, true, false, none, some, List, [], ◌∷◌}
use opsdesk.State.{Published}
use opsdesk.Tests.Tickets.{desk}
use opsdesk.Tenancy.{resolve}
use opsdesk.Rbac.{has_permission}
use opsdesk.Tickets.Queries.{exists_in_organization}
use opsdesk.Realtime.{
  Client, connect, join_organization, leave_organization, join_ticket, leave_each, leave_matching,
  forget_organization,
}
use opsdesk.Realtime.Messages.{
  to_join_organization, to_leave_organization, to_join_ticket, serve, connect-Synced,
}
use opsdesk.Realtime.Refinement.{Turn, run, run_specified, rooms_of}
use opsdesk.Realtime.Runs.{AllOwned, run-specified}
use opsdesk.Realtime.Delivery.{audience, receives, is_member_in, receives_member}
use opsdesk.Realtime.Parting.{left_hears_nothing}
use opsdesk.Realtime.Rooms.{organization_room, ticket_room, is_in, lookup, put, remove}

abbrev of_one : ℕ → ℕ
of_one t = 1

abbrev morning : List Turn
morning =
    (desk, desk, to_join_organization (some 1))
    ∷ (desk, desk, to_join_ticket (some 1) (some 2))
    ∷ []

morning-owned : AllOwned of_one morning
morning-owned = ((refl, (refl, tt)), ((refl, (refl, tt)), tt))

abbrev news : Published
news = Published.ticket_updated 1 2

hears_news : receives (run morning (connect 3)) news ≡ true
unfolding run serve connect join_organization join_ticket resolve find_first exists_in_organization
    has_permission audience is_in lookup put
hears_news = refl

run-specified_example :
    rooms_of (run morning (connect 3)) ≡ run_specified morning 3 (rooms_of (connect 3))
unfolding connect
run-specified_example =
    run-specified of_one morning (connect 3) morning-owned (connect-Synced of_one 3)

receives_member_example : any (is_member_in 3 1) morning ≡ true
receives_member_example = receives_member of_one morning 3 morning-owned news hears_news

left_hears_nothing_example :
    receives (serve desk desk (to_leave_organization (some 1)) (run morning (connect 3))).1 news
    ≡ false
left_hears_nothing_example =
    left_hears_nothing of_one morning 3 morning-owned desk desk news
      (to_leave_organization (some 1)) refl

-- Leaving the organization while a request for a ticket waits for its second query: the ticket's
-- room is joined all the same, and no entry of `client.data.tenants` is left for it.
abbrev leave_now : Client → Client
leave_now c = (leave_organization (some 1) c).1

overlapped :
    let c =
      (join_ticket desk desk
        (λ d. d)
        leave_now
        (some 1)
        (some 2)
        (run ((desk, desk, to_join_organization (some 1)) ∷ []) (connect 3))).1 in
    (is_in (ticket_room 1 2) c.calls ≡ true)
    × (is_in (organization_room 1) c.calls ≡ false)
    × (lookup 1 c.tenants ≡ none)
unfolding run serve connect join_organization join_ticket resolve find_first exists_in_organization
    has_permission is_in lookup put remove leave_organization forget_organization leave_each
    leave_matching
overlapped = (refl, refl, refl)
