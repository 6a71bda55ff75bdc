-- ===== src/Tickets/Transitions.antt =====
-- The life cycle of a ticket as `updateStatus` enforces it.
use opsdesk.Schema
use opsdesk.Base.{
  if◌then◌else◌, Bool-cases, Option-cases, ◌==◌, find_first, count, update_many, find_first_holds,
  find_first-update_many, Distinct, count_absent, count_unique, Failure, Result, not_found,
  conflict, ok, err, ℕ, ◌≡◌, refl, sym, subst, ◌≢◌, ◌↔◌, ◌⊎◌, inl, inr, Bool, true, false, ◌&&◌,
  Option, none, some, [], ◌∷◌, arith, nat_eq,
}
use opsdesk.Enums.{TicketStatus, ticket_status_eq}
use opsdesk.Schema.{Ticket, AuditLog}
use opsdesk.State.{TenantContext, State, Published}
use opsdesk.Tickets.{
  is_status_transition_allowed, set_status, unchanged, with_status, update_status, already,
  no_transition,
}
use opsdesk.Tickets.Queries.{in_org, require_ticket}
use opsdesk.Audit.{record_for_tenant}

-- The life cycle in words: a status differs from the next, only resolved tickets close, only open
-- ones are put on hold, and a closed ticket can only be opened again.
abbrev pub MayFollow : TicketStatus → TicketStatus → Type 0
MayFollow current next =
    (current ≢ next)
    × (next ≡ TicketStatus.closed → current ≡ TicketStatus.resolved)
    × (next ≡ TicketStatus.pending → current ≡ TicketStatus.opened)
    × (current ≡ TicketStatus.closed → next ≡ TicketStatus.opened)

-- The table allows a transition exactly when the life cycle does: the two statuses differ, only a
-- resolved ticket closes, only an open one becomes pending, and a closed one only opens again.
pub transition_iff :
    (current next : TicketStatus)
    → (is_status_transition_allowed current next ≡ true) ↔ MayFollow current next
unfolding is_status_transition_allowed
transition_iff current next = ground arith

with_status-in_org :
    (org id : ℕ) (next : TicketStatus) (now : ℕ) (t : Ticket)
    → in_org org id (with_status next now t) ≡ in_org org id t
unfolding with_status
with_status-in_org org id TicketStatus.opened now t = refl
with_status-in_org org id TicketStatus.pending now t = refl
with_status-in_org org id TicketStatus.resolved now t = refl
with_status-in_org org id TicketStatus.closed now t = refl

-- The time stamps of a status: `resolvedAt` and `closedAt` are cleared where a ticket is opened or put
-- back, set where it gets there, and kept otherwise.
abbrev pub resolved_time : TicketStatus → ℕ → Option ℕ → Option ℕ
resolved_time TicketStatus.opened now old = none
resolved_time TicketStatus.pending now old = old
resolved_time TicketStatus.resolved now old = some now
resolved_time TicketStatus.closed now old = old

abbrev pub closed_time : TicketStatus → ℕ → Option ℕ → Option ℕ
closed_time TicketStatus.opened now old = none
closed_time TicketStatus.pending now old = old
closed_time TicketStatus.resolved now old = none
closed_time TicketStatus.closed now old = some now

abbrev pub moved : TicketStatus → ℕ → Ticket → Ticket
moved next now t = record t {
  status = next;
  resolved_at = resolved_time next now t.resolved_at;
  closed_at = closed_time next now t.closed_at;
  updated_at = now;
}

moved_lem : (next : TicketStatus) (now : ℕ) → with_status next now ≡ moved next now
unfolding with_status
moved_lem TicketStatus.opened now = refl
moved_lem TicketStatus.pending now = refl
moved_lem TicketStatus.resolved now = refl
moved_lem TicketStatus.closed now = refl

abbrev stale : Result Ticket
stale = err (conflict "Ticket status changed concurrently")

within : (org : ℕ) (read x : Ticket) → unchanged org read x ≡ true → in_org org read.id x ≡ true
within org read x h = ground (arith, h)

module _ (tenant : TenantContext) (ticket : Ticket) (next : TicketStatus) (now : ℕ)
    (w : State) where
  abbrev here : Ticket → Bool
  here = in_org tenant.organization_id ticket.id

  abbrev same : Ticket → Bool
  same = unchanged tenant.organization_id ticket

  -- the tables after the writes of a status change
  abbrev pub after_status : State
  after_status =
      (record_for_tenant tenant Schema.ticket_status_changed Schema.ticket ticket.id
        (("from", Schema.ticket_status ticket.status) ∷ ("to", Schema.ticket_status next) ∷ []) now
        (record w { tickets = update_many same (with_status next now) w.tickets })).1

  set_status_missing :
      find_first here w.tickets ≡ none → set_status tenant ticket next now w ≡ (stale, w)
  unfolding set_status
  set_status_missing h =
      rw (count_absent here same w.tickets (within tenant.organization_id ticket) h)

  module _ (cur : Ticket) (d : Distinct (λ t. t.id) w.tickets)
      (found : find_first here w.tickets ≡ some cur) where
    one_key : (x : Ticket) → here x ≡ true → x.id ≡ cur.id
    one_key x h = ground (arith, h, find_first_holds here w.tickets found)

    hits : count same w.tickets ≡ (if same cur then 1 else 0)
    hits =
        count_unique (λ t. t.id) here same w.tickets (within tenant.organization_id ticket) one_key
          d found

    set_status-stale : same cur ≡ false → set_status tenant ticket next now w ≡ (stale, w)
    unfolding set_status
    set_status-stale h = rw (hits, h)

    found_after :
        same cur ≡ true
        → find_first here (update_many same (with_status next now) w.tickets)
          ≡ some (with_status next now cur)
    found_after h = rw (
      find_first-update_many here same (with_status next now) w.tickets
          (λ x _. with_status-in_org tenant.organization_id ticket.id next now x),
      found,
      h,
    )

    set_status_fresh :
        same cur ≡ true
        → set_status tenant ticket next now w ≡ (ok (with_status next now cur), after_status)
    unfolding set_status require_ticket record_for_tenant
    set_status_fresh h = rw (hits, h, found_after h)

status_kept :
    (org : ℕ) (read cur : Ticket) → unchanged org read cur ≡ true → cur.status ≡ read.status
status_kept org read cur u = ground (arith, u)

module _ (others : State → State) (tenant : TenantContext) (ticket_id : ℕ) (next : TicketStatus)
    (now : ℕ) (w : State) where
  -- the row that the call finds again: the tenant's ticket with the status that was read
  abbrev still : Ticket → Ticket → Bool
  still read t =
      ((t.id == read.id) && (t.organization_id == tenant.organization_id))
      && (t.status == read.status)

  abbrev audited : Ticket → AuditLog
  audited read = record {
    organization_id = tenant.organization_id;
    actor_user_id = some tenant.user_id;
    actor_membership_id = some tenant.membership_id;
    actor_role = some tenant.role;
    action = Schema.ticket_status_changed;
    entity_type = Schema.ticket;
    entity_id = some read.id;
    metadata = ("from", Schema.ticket_status read.status) ∷ ("to", Schema.ticket_status next) ∷ [];
    created_at = now;
  }

  abbrev pub after_update : Ticket → Ticket → State
  after_update read current = record (others w) {
    tickets = update_many (still read) (moved next now) (others w).tickets;
    audit_logs = audited read ∷ (others w).audit_logs;
    published = Published.ticket_updated tenant.organization_id current.id ∷ (others w).published;
  }

  -- A successful call: what it read, what it found at the moment of writing, and what it left.
  pub record StatusChanged (read current : Ticket) : Type 0 where
    pub was_read : find_first (in_org tenant.organization_id ticket_id) w.tickets ≡ some read
    pub was_there :
        find_first (in_org tenant.organization_id read.id) (others w).tickets ≡ some current
    pub same_status : current.status ≡ read.status
    pub legal : MayFollow current.status next
    pub result :
        update_status others tenant ticket_id next now w
        ≡ (ok (moved next now current), after_update read current)

  -- If the ids of the tickets are distinct when the call writes, it ends in one of two ways, whatever
  -- other requests do while it runs. It throws, and the state is as the others left it. Or it
  -- returns, and then the ticket of the tenant had at the moment of writing the status that was
  -- checked, from which the life cycle leads to the next one; the ticket gets the new status with its
  -- time stamps and is returned, and one audit row with the two statuses and one event are added.
  pub update_status_outcome :
      Distinct (λ t. t.id) (others w).tickets
      → ((e : Failure) × ((update_status others tenant ticket_id next now w ≡ (err e, w))
            ⊎ (update_status others tenant ticket_id next now w ≡ (err e, others w))))
        ⊎ ((read current : Ticket) × StatusChanged read current)
  unfolding update_status require_ticket record_for_tenant
  update_status_outcome d =
      elim (Option-cases (find_first (in_org tenant.organization_id ticket_id) w.tickets)) [
        | inl e ↦ inl (not_found "Ticket not found", inl (rw e))
        | inr (read, e) ↦ elim (Bool-cases (read.status == next)) [
          | inl q ↦ inl (already next, inl (rw (e, q)))
          | inr q ↦ elim (Bool-cases (is_status_transition_allowed read.status next)) [
            | inr a ↦ inl (no_transition read.status next, inl (rw (e, q, a)))
            | inl a ↦
                elim (Option-cases
                  (find_first (in_org tenant.organization_id read.id) (others w).tickets)) [
                    | inl m ↦ inl (
                      conflict "Ticket status changed concurrently",
                      inr (rw (e, q, a, set_status_missing tenant read next now (others w) m)),
                    )
                    | inr (cur, m) ↦ elim (Bool-cases (unchanged tenant.organization_id read cur)) [
                      | inr u ↦ inl (
                        conflict "Ticket status changed concurrently",
                        inr (
                            rw (
                              e,
                              q,
                              a,
                              set_status-stale tenant read next now (others w) cur d m u,
                            )),
                      )
                      | inl u ↦ inr (
                        read,
                        cur,
                        record {
                          was_read = e;
                          was_there = m;
                          same_status = status_kept tenant.organization_id read cur u;
                          legal =
                              (transition_iff cur.status next).0
                                (rw (status_kept tenant.organization_id read cur u) a);
                          result = rw (
                            e,
                            q,
                            a,
                            set_status_fresh tenant read next now (others w) cur d m u,
                            moved_lem next now,
                          );
                        },
                      )
                    ]
                  ]
          ]
        ]
      ]

-- Without interference the call succeeds for every ticket of the tenant and every status that the
-- life cycle allows next.
pub update_status_complete :
    (tenant : TenantContext) (ticket_id : ℕ) (next : TicketStatus) (now : ℕ) (w : State)
    {t : Ticket}
    → Distinct (λ t. t.id) w.tickets
    → find_first (in_org tenant.organization_id ticket_id) w.tickets ≡ some t
    → MayFollow t.status next
    → (update_status (λ s. s) tenant ticket_id next now w).0 ≡ ok (with_status next now t)
unfolding update_status require_ticket
update_status_complete tenant ticket_id next now w {t} d e legal =
    let id : t.id ≡ ticket_id =
      ground (arith, find_first_holds (in_org tenant.organization_id ticket_id) w.tickets e) in
    let again : find_first (in_org tenant.organization_id t.id) w.tickets ≡ some t =
      subst (λ k. find_first (in_org tenant.organization_id k) w.tickets ≡ some t) (sym id) e in
    let new : (t.status == next) ≡ false = ground (arith, legal) in
    let own : unchanged tenant.organization_id t t ≡ true =
      ground (arith, find_first_holds (in_org tenant.organization_id ticket_id) w.tickets e) in
    rw (
      e,
      new,
      (transition_iff t.status next).1 legal,
      set_status_fresh tenant t next now w t d again own,
    )
