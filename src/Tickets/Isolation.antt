-- ===== src/Tickets/Isolation.antt =====
-- The tickets of one organization are out of reach for the members of the others.
use opsdesk.Base.{
  nat_beq_iff, ◌==◌, ◌!=◌, beq_refl, find_many, All, All-update_many, find_many-update_many,
  All-map, modify, ◌>>◌, by_transaction, by_bind, by_then, by_modify, Keeps, Keeps-Preorder,
  Preorder, Progress, ℕ, ◌≡◌, refl, sym, subst, ◌∙◌, Bool, true, Option, List, ◌∷◌, arith,
  option_eq, nat_eq,
}
use opsdesk.Enums.{ticket_status_eq, TicketStatus}
use opsdesk.Schema.{Ticket}
use opsdesk.State.{State, TenantContext}
use opsdesk.Tickets.Queries.{touch_tickets, in_org, update_ticket}
use opsdesk.Tickets.{
  CreateTicketInput, UpdateTicketInput, new_ticket, unchanged, with_fields, with_status,
  write_update,
}
use opsdesk.Tickets.Assignment.{check_assignee, with_assignee, write_assignee}
use opsdesk.Tickets.Parts.{
  check_assignee-keeps, by_update_ticket, by_event, actions, record_assignee-keeps,
  record_update-keeps,
}

abbrev pub is_foreign : ℕ → Ticket → Bool
is_foreign org t = t.organization_id != org

module _ (org : ℕ) (own : ℕ → Bool) (old : List Ticket) where
  -- the foreign tickets are the old ones, and the ids in question are those of own tickets
  abbrev pub Owned : Ticket → Type 0
  Owned x = own x.id ≡ true → x.organization_id ≡ org

  abbrev pub Apart : State → Type 0
  Apart w = (find_many (is_foreign org) w.tickets ≡ old) × All Owned w.tickets

  pub Apart-Preorder : Preorder (Keeps Apart)
  Apart-Preorder = Keeps-Preorder Apart

  pub Apart-same : (w w' : State) → w'.tickets ≡ w.tickets → Keeps Apart w w'
  Apart-same w w' same a =
      subst (λ ts. (find_many (is_foreign org) ts ≡ old) × All Owned ts) (sym same) a

  by_touch :
      (p : Ticket → Bool) (f : Ticket → Ticket)
      → ((x : Ticket) → p x ≡ true → Owned x → x.organization_id ≡ org)
      → ((x : Ticket) → (f x).organization_id ≡ x.organization_id)
      → ((x : Ticket) → (f x).id ≡ x.id)
      → Progress (Keeps Apart) (touch_tickets p f)
  by_touch p f mine stays key = by_modify _ (λ w a. (
    find_many-update_many (is_foreign org) p f w.tickets (
          All-map Owned _ w.tickets
            (λ x o h. (ground (arith, mine x h o), ground (arith, mine x h o, stays x))) a.1)
        ∙ a.0,
    All-update_many Owned p f w.tickets (λ x h o _. stays x ∙ mine x h o) a.1,
  ))

  -- an update by the key and the organization
  pub by_touch_time :
      (id now : ℕ)
      → Progress (Keeps Apart) (touch_tickets (in_org org id) (λ x. record x { updated_at = now }))
  by_touch_time id now = by_touch _ _ (λ x h _. ground (arith, h)) (λ x. refl) (λ x. refl)

  with_status-same :
      (next : TicketStatus) (now : ℕ) (x : Ticket)
      → ((with_status next now x).organization_id ≡ x.organization_id)
        × ((with_status next now x).id ≡ x.id)
  unfolding with_status
  with_status-same TicketStatus.opened now x = (refl, refl)
  with_status-same TicketStatus.pending now x = (refl, refl)
  with_status-same TicketStatus.resolved now x = (refl, refl)
  with_status-same TicketStatus.closed now x = (refl, refl)

  pub by_touch_status :
      (t : Ticket) (next : TicketStatus) (now : ℕ)
      → Progress (Keeps Apart) (touch_tickets (unchanged org t) (with_status next now))
  by_touch_status t next now =
      by_touch _ _ (λ x h _. ground (arith, h)) (λ x. (with_status-same next now x).0)
        (λ x. (with_status-same next now x).1)

  -- an update by the key, which is that of an own ticket
  by_touch_key :
      (id : ℕ) (f : Ticket → Ticket)
      → own id ≡ true
      → ((x : Ticket) → (f x).organization_id ≡ x.organization_id)
      → ((x : Ticket) → (f x).id ≡ x.id)
      → Progress (Keeps Apart) (touch_tickets (λ t. t.id == id) f)
  by_touch_key id f is_own =
      by_touch _ f (λ x h o. o (subst (λ k. own k ≡ true) (sym ((nat_beq_iff x.id id).0 h)) is_own))

  pub by_new_ticket :
      (input : CreateTicketInput) (customer_id id now : ℕ)
      → Progress
          (Keeps Apart)
          (modify (λ w. record w { tickets = new_ticket org input customer_id id now ∷ w.tickets }))
  unfolding find_many
  by_new_ticket input customer_id id now =
      by_modify _ (λ w a. (rw (beq_refl org) a.0, ((λ _. refl), a.1)))

  pub write_update-Keeps :
      (tenant : TenantContext) (input : UpdateTicketInput) (t : Ticket) (now : ℕ)
      → own t.id ≡ true
      → Progress (Keeps Apart) (write_update tenant input t now)
  unfolding write_update
  write_update-Keeps tenant input t now is_own =
      let touched : Progress (Keeps Apart) (update_ticket t.id (with_fields input now)) =
        by_update_ticket Apart-Preorder Apart-same t.id (with_fields input now)
          (by_touch_key t.id (with_fields input now) is_own (λ x. refl) (λ x. refl)) in
      by_bind Apart-Preorder _ _
        (by_transaction Apart-Preorder _ (
          by_bind Apart-Preorder _ _ touched
            (λ r. search (actions, record_update-keeps, Apart-Preorder, Apart-same) depth 8)))
        (λ r. search (actions, by_event, Apart-Preorder, Apart-same) depth 8)

  pub write_assignee-Keeps :
      (tenant : TenantContext) (t : Ticket) (membership_id : Option ℕ) (now : ℕ)
      → own t.id ≡ true
      → Progress (Keeps Apart) (write_assignee tenant t membership_id now)
  unfolding write_assignee
  write_assignee-Keeps tenant t membership_id now is_own =
      let touched : Progress (Keeps Apart) (update_ticket t.id (with_assignee membership_id now)) =
        by_update_ticket Apart-Preorder Apart-same t.id (with_assignee membership_id now)
          (by_touch_key t.id (with_assignee membership_id now) is_own (λ x. refl) (λ x. refl)) in
      by_bind Apart-Preorder _ _
        (by_transaction Apart-Preorder _ (
          by_bind Apart-Preorder _ _ touched
            (λ r. search (actions, record_assignee-keeps, Apart-Preorder, Apart-same) depth 8)))
        (λ r. search (actions, by_event, Apart-Preorder, Apart-same) depth 8)

  -- what follows the read in `assign`
  pub checked_assignee-Keeps :
      (tenant : TenantContext) (t : Ticket) (membership_id : Option ℕ) (now : ℕ)
      → own t.id ≡ true
      → Progress (Keeps Apart) (
          check_assignee tenant.organization_id membership_id
          >> (modify (λ s. s) >> write_assignee tenant t membership_id now))
  checked_assignee-Keeps tenant t membership_id now is_own =
      by_then Apart-Preorder (check_assignee tenant.organization_id membership_id)
        (modify (λ s. s) >> write_assignee tenant t membership_id now)
        (check_assignee-keeps Apart-Preorder Apart-same tenant.organization_id membership_id)
        (by_then Apart-Preorder (modify (λ s. s)) (write_assignee tenant t membership_id now)
          (by_modify _ Apart-Preorder.reflexive)
          (write_assignee-Keeps tenant t membership_id now is_own))
