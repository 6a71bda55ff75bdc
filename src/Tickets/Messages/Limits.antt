-- ===== src/Tickets/Messages/Limits.antt =====
-- The size of what a message carries.
use opsdesk.Base.{
  nat_beq_iff, find_many, count, update_many, All, ok, ℕ, ◌≤◌, String, ◌≡◌, refl, inl, inr, Bool,
  true, false, List, [], ◌∷◌, arith,
}
use opsdesk.Schema.{Attachment, TicketMessage}
use opsdesk.State.{TenantContext, State}
use opsdesk.Tickets.Messages.{
  CreateMessageInput, available, linked_to, create_message, record_message, total_bytes,
  max_message_attachments_bytes,
}
use opsdesk.Tickets.Messages.Cases.{create_message_cases, linked_ids}
use opsdesk.Tickets.Messages.Links.{of_message}

-- the attachments that an update links weigh what they weighed before
total_bytes_linked :
    (p : Attachment → Bool) (id : ℕ) (xs : List Attachment)
    → All (λ a. of_message id a ≡ false) xs
    → total_bytes (find_many (of_message id) (update_many p (linked_to id) xs))
      ≡ total_bytes (find_many p xs)
unfolding total_bytes find_many update_many
total_bytes_linked p id [] a = refl
total_bytes_linked p id (x ∷ xs) a =
    let linked : of_message id (linked_to id x) ≡ true = (nat_beq_iff id id).1 refl in
    ground (arith, a.0, linked, total_bytes_linked p id xs a.1)

total_bytes_none :
    (p : Attachment → Bool) (xs : List Attachment)
    → count p xs ≡ 0
    → total_bytes (find_many p xs) ≡ 0
unfolding total_bytes find_many count
total_bytes_none p [] h = refl
total_bytes_none p (x ∷ xs) h = ground (arith, h, total_bytes_none p xs)

-- A message that a call created carries at most 50 MiB of attachments, where its id is new and no
-- other request comes between.
pub create_message_limit :
    (trim_lower : String → String) (accepts : ℕ → Bool) (tenant : TenantContext) (ticket_id : ℕ)
    (input : CreateMessageInput) (id delivery_id now : ℕ) (w : State) {m : TicketMessage}
    → All (λ a. of_message id a ≡ false) w.attachments
    → (create_message trim_lower (λ v. v) accepts tenant ticket_id input id delivery_id now w).0
      ≡ ok m
    → total_bytes (
        find_many
          (of_message id)
          (create_message trim_lower
            (λ v. v)
            accepts
            tenant
            ticket_id
            input
            id
            delivery_id
            now
            w).1.attachments)
      ≤ max_message_attachments_bytes
unfolding record_message
create_message_limit trim_lower accepts tenant ticket_id input id delivery_id now w {m} fresh
      returned =
    elim (create_message_cases trim_lower (λ v. v) accepts tenant ticket_id input id delivery_id now
      w) [
        | inl (e, inl r) ↦ absurd (ground (arith, returned, r))
        | inl (e, inr r) ↦ absurd (ground (arith, returned, r))
        | inr (t, c) ↦
            let ids =
              linked_ids trim_lower (λ v. v) accepts tenant ticket_id input id delivery_id now w in
            rw
              (
                c.result,
                total_bytes_linked (available tenant.organization_id t.id ids) id w.attachments
                    fresh,
              )
              (elim c.fit [
                | inl few ↦
                    rw
                      (total_bytes_none (available tenant.organization_id t.id ids) w.attachments
                        (ground (arith, c.all_taken, few)))
                      (omega arith)
                | inr fits ↦ fits.1
              ])
      ]
