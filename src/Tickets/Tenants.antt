-- ===== src/Tickets/Tenants.antt =====
-- A request of one organization leaves the tickets of every other as they are.
use opsdesk.Base.{
  nat_beq_iff, Bool-cases, Option-cases, ◌==◌, beq_refl, find_first, find_many, All,
  find_first_holds, All-intro, All-map, Distinct, Distinct-find_first, modify, reject, by_reject,
  by_bind, by_then, by_modify, Keeps, Preorder, Progress, ℕ, String, ◌≡◌, refl, sym, subst, inl,
  inr, Bool, true, false, Option, some, List, ◌∷◌, arith, nat_eq,
}
use opsdesk.Enums.{TicketStatus, ticket_status_eq}
use opsdesk.Schema.{Ticket}
use opsdesk.State.{TenantContext, State, Action}
use opsdesk.Tickets.{
  create, CreateTicketInput, set_status, update_status, new_ticket, unchanged, with_status,
  UpdateTicketInput, is_empty_update, update,
}
use opsdesk.Tickets.Assignment.{add_tag, remove_tag, assign}
use opsdesk.Tickets.Queries.{in_org, touch_tickets, require_ticket}
use opsdesk.Tickets.Parts.{
  actions, by_event, by_audit, by_require, require_tag-keeps, link_tag-keeps, unlink_tag-keeps,
  find_one-keeps, announce-keeps, check_attachments-keeps, write_message-keeps,
}
use opsdesk.Tickets.Service.{
  Request, serve, to_create, to_update, to_change_status, to_assign, to_tag, to_untag, to_send,
}
use opsdesk.Tickets.Isolation.{
  checked_assignee-Keeps, Apart, Apart-Preorder, Apart-same, by_touch_time, by_touch_status,
  by_new_ticket, is_foreign, write_update-Keeps,
}
use opsdesk.Tickets.Messages.{CreateMessageInput, create_message}

by_no_others : {R : State → State → Type 0} → Preorder R → Progress R (modify (λ w. w))
by_no_others o = by_modify _ o.reflexive

-- no id in question
abbrev nobody : ℕ → Bool
nobody id = false

module _ (tenant : TenantContext) (old : List Ticket) where
  abbrev Still : State → State → Type 0
  Still = Keeps (Apart tenant.organization_id nobody old)

  still : Preorder Still
  still = Apart-Preorder tenant.organization_id nobody old

  unread : (w w' : State) → w'.tickets ≡ w.tickets → Still w w'
  unread = Apart-same tenant.organization_id nobody old

  touched :
      (id now : ℕ)
      → Progress Still
          (touch_tickets (in_org tenant.organization_id id) (λ x. record x { updated_at = now }))
  touched = by_touch_time tenant.organization_id nobody old

  status_touched :
      (t : Ticket) (next : TicketStatus) (now : ℕ)
      → Progress Still (touch_tickets (unchanged tenant.organization_id t) (with_status next now))
  status_touched = by_touch_status tenant.organization_id nobody old

  added :
      (input : CreateTicketInput) (customer_id id now : ℕ)
      → Progress Still (
          modify (λ w. record w {
            tickets = new_ticket tenant.organization_id input customer_id id now ∷ w.tickets;
          }))
  added = by_new_ticket tenant.organization_id nobody old

  create-Still :
      (input : CreateTicketInput) (id now : ℕ)
      → Progress Still (create (λ s. s) tenant input id now)
  unfolding create
  create-Still input id now =
      search (actions, by_event, by_audit, by_no_others, added, still, unread) depth 14

  set_status-Still :
      (t : Ticket) (next : TicketStatus) (now : ℕ) → Progress Still (set_status tenant t next now)
  unfolding set_status
  set_status-Still t next now =
      search (actions, by_event, by_audit, by_require, status_touched, still, unread) depth 14

  update_status-Still :
      (ticket_id : ℕ) (next : TicketStatus) (now : ℕ)
      → Progress Still (update_status (λ s. s) tenant ticket_id next now)
  unfolding update_status
  update_status-Still ticket_id next now =
      search (actions, by_event, by_require, by_no_others, set_status-Still, still, unread) depth 14

  add_tag-Still :
      (ticket_id tag_id now : ℕ) → Progress Still (add_tag (λ s. s) tenant ticket_id tag_id now)
  unfolding add_tag
  add_tag-Still ticket_id tag_id now =
      search
        (
          actions, by_event, by_require, by_no_others, require_tag-keeps, link_tag-keeps,
          find_one-keeps, still, unread,
        )
        depth 14

  remove_tag-Still :
      (ticket_id tag_id now : ℕ) → Progress Still (remove_tag (λ s. s) tenant ticket_id tag_id now)
  unfolding remove_tag
  remove_tag-Still ticket_id tag_id now =
      search
        (
          actions, by_event, by_require, by_no_others, require_tag-keeps, unlink_tag-keeps,
          find_one-keeps, still, unread,
        )
        depth 14

  create_message-Still :
      (trim_lower : String → String) (accepts : ℕ → Bool) (ticket_id : ℕ)
      (input : CreateMessageInput) (id delivery_id now : ℕ)
      → Progress Still
          (create_message trim_lower (λ s. s) accepts tenant ticket_id input id delivery_id now)
  unfolding create_message
  create_message-Still trim_lower accepts ticket_id input id delivery_id now =
      by_then still (reject _ _) _ (by_reject still _ _) (
        by_bind still (require_ticket tenant.organization_id ticket_id) _
          (by_require still unread tenant.organization_id ticket_id)
          (λ t.
            search
              (
                actions, by_event, by_no_others, check_attachments-keeps, write_message-keeps,
                announce-keeps, still, unread, touched,
              )
              depth 14 fits 5000))

-- with unique ids, the id of a ticket of the organization is that of its tickets only
own_key :
    (org ticket_id : ℕ) (t : Ticket) (ts : List Ticket)
    → Distinct (λ x. x.id) ts
    → find_first (in_org org ticket_id) ts ≡ some t
    → All (λ x. (x.id == t.id) ≡ true → x.organization_id ≡ org) ts
own_key org ticket_id t ts d found =
    let home : t.organization_id ≡ org =
      ground (arith, find_first_holds (in_org org ticket_id) ts found) in
    All-map (λ x. x.id ≡ t.id → x ≡ t) (λ x. (x.id == t.id) ≡ true → x.organization_id ≡ org) ts
      (λ x only same.
        subst (λ y. y.organization_id ≡ org) (sym (only ((nat_beq_iff x.id t.id).0 same))) home)
      (Distinct-find_first (λ x. x.id) _ ts d found)

none_own : (org : ℕ) (ts : List Ticket) → All (λ x. nobody x.id ≡ true → x.organization_id ≡ org) ts
none_own org ts = All-intro _ ts (λ x h. absurd (ground (arith, h)))

module _ (tenant : TenantContext) (w : State) where
  abbrev foreign_tickets : State → List Ticket
  foreign_tickets v = find_many (is_foreign tenant.organization_id) v.tickets

  from_Still :
      {A : Type 0} (m : Action A)
      → Progress (Still tenant (foreign_tickets w)) m
      → foreign_tickets (m w).1 ≡ foreign_tickets w
  from_Still m p = (p.at w (refl, none_own tenant.organization_id w.tickets)).0

  update_isolated :
      (ticket_id : ℕ) (input : UpdateTicketInput) (now : ℕ)
      → Distinct (λ t. t.id) w.tickets
      → foreign_tickets (update (λ s. s) tenant ticket_id input now w).1 ≡ foreign_tickets w
  unfolding update require_ticket
  update_isolated ticket_id input now d = elim (Bool-cases (is_empty_update input)) [
    | inl e ↦ rw e
    | inr e ↦ elim (Option-cases (find_first (in_org tenant.organization_id ticket_id) w.tickets)) [
      | inl f ↦ rw (e, f)
      | inr (t, f) ↦
          rw (e, f)
            (((write_update-Keeps tenant.organization_id (λ k. k == t.id) (foreign_tickets w) tenant
                input t now (beq_refl t.id)).at
              w (refl, own_key tenant.organization_id ticket_id t w.tickets d f)).0)
    ]
  ]

  assign_isolated :
      (ticket_id : ℕ) (membership_id : Option ℕ) (now : ℕ)
      → Distinct (λ t. t.id) w.tickets
      → foreign_tickets (assign (λ s. s) tenant ticket_id membership_id now w).1 ≡ foreign_tickets w
  unfolding assign require_ticket
  assign_isolated ticket_id membership_id now d =
      elim (Option-cases (find_first (in_org tenant.organization_id ticket_id) w.tickets)) [
        | inl f ↦ rw f
        | inr (t, f) ↦ rw f (
            ((checked_assignee-Keeps tenant.organization_id (λ k. k == t.id) (foreign_tickets w)
                tenant t membership_id now (beq_refl t.id)).at
              w (refl, own_key tenant.organization_id ticket_id t w.tickets d f)).0)
      ]

  -- Where ids are unique, a request that runs alone leaves the tickets of every organization but
  -- its own as they are, whether it returns or throws.
  pub serve_isolated :
      (trim_lower : String → String) (accepts : ℕ → Bool) (r : Request)
      → Distinct (λ t. t.id) w.tickets
      → find_many
          (is_foreign tenant.organization_id)
          (serve trim_lower accepts (λ s. s) tenant r w).tickets
        ≡ find_many (is_foreign tenant.organization_id) w.tickets
  unfolding serve
  serve_isolated trim_lower accepts (to_create input id now) d =
      from_Still (create (λ s. s) tenant input id now) (create-Still tenant _ input id now)
  serve_isolated trim_lower accepts (to_update ticket_id input now) d =
      update_isolated ticket_id input now d
  serve_isolated trim_lower accepts (to_change_status ticket_id next now) d =
      from_Still (update_status (λ s. s) tenant ticket_id next now)
        (update_status-Still tenant _ ticket_id next now)
  serve_isolated trim_lower accepts (to_assign ticket_id membership_id now) d =
      assign_isolated ticket_id membership_id now d
  serve_isolated trim_lower accepts (to_tag ticket_id tag_id now) d =
      from_Still (add_tag (λ s. s) tenant ticket_id tag_id now)
        (add_tag-Still tenant _ ticket_id tag_id now)
  serve_isolated trim_lower accepts (to_untag ticket_id tag_id now) d =
      from_Still (remove_tag (λ s. s) tenant ticket_id tag_id now)
        (remove_tag-Still tenant _ ticket_id tag_id now)
  serve_isolated trim_lower accepts (to_send ticket_id input id delivery_id now) d =
      from_Still
        (create_message trim_lower (λ s. s) accepts tenant ticket_id input id delivery_id now)
        (create_message-Still tenant _ trim_lower accepts ticket_id input id delivery_id now)
