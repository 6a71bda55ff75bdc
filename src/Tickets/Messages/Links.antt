-- ===== src/Tickets/Messages/Links.antt =====
-- The attachments of a new message.
use opsdesk.Base.{
  ◌==◌, beq_refl, length, count, update_many, All, or_else, ok, ℕ, String, ◌≡◌, refl, inl, inr,
  Bool, true, false, some, List, [], ◌∷◌, arith, nat_eq, option_eq,
}
use opsdesk.Schema.{Attachment, TicketMessage}
use opsdesk.State.{TenantContext, State}
use opsdesk.Tickets.Messages.{
  CreateMessageInput, available, linked_to, create_message, record_message,
}
use opsdesk.Tickets.Messages.Cases.{create_message_cases, linked_ids}

-- rows that an update makes pass a test are as many as it selects, if none passed before
count_selected :
    {A : Type 0} (q p : A → Bool) (f : A → A) (xs : List A)
    → ((x : A) → q (f x) ≡ true)
    → All (λ x. q x ≡ false) xs
    → count q (update_many p f xs) ≡ count p xs
unfolding count update_many
count_selected q p f [] to a = refl
count_selected q p f (x ∷ xs) to a = ground (arith, to x, a.0, count_selected q p f xs to a.1)

abbrev pub of_message : ℕ → Attachment → Bool
of_message id a = a.message_id == some id

-- A call that returns links as many attachments to the new message as the request names, where the
-- id of the message is new.
pub create_message-attachments :
    (trim_lower : String → String) (others : State → State) (accepts : ℕ → Bool)
    (tenant : TenantContext) (ticket_id : ℕ) (input : CreateMessageInput) (id delivery_id now : ℕ)
    (w : State) {m : TicketMessage}
    → All (λ a. of_message id a ≡ false) (others w).attachments
    → (create_message trim_lower others accepts tenant ticket_id input id delivery_id now w).0
      ≡ ok m
    → count
        (of_message id)
        (create_message trim_lower others accepts tenant ticket_id input id delivery_id now
          w).1.attachments
      ≡ length (or_else input.attachment_ids [])
unfolding record_message
create_message-attachments trim_lower others accepts tenant ticket_id input id delivery_id now w {m}
      fresh returned =
    elim (create_message_cases trim_lower others accepts tenant ticket_id input id delivery_id now
      w) [
        | inl (e, inl r) ↦ absurd (ground (arith, returned, r))
        | inl (e, inr r) ↦ absurd (ground (arith, returned, r))
        | inr (t, c) ↦
            rw
              (
                c.result,
                count_selected (of_message id)
                    (available tenant.organization_id t.id (
                      linked_ids trim_lower others accepts tenant ticket_id input id delivery_id now
                        w))
                    (linked_to id) (others w).attachments (λ x. beq_refl id) fresh,
                c.all_taken,
              )
              c.no_duplicates
      ]
