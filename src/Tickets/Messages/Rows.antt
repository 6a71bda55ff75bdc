-- ===== src/Tickets/Messages/Rows.antt =====
-- What a new message needs and the delivery of a reply, written out.
use opsdesk.Base.{
  if◌then◌else◌, Bool-cases, Option-cases, ◌==◌, length, find_first, find_many, count, All,
  count_none, ℕ, ◌+◌, ◌*◌, ◌≤◌, String, ◌≡◌, refl, sym, ◌∙◌, ◌≢◌, inl, inr, Bool, false, Option,
  none, some, List, [], ◌∷◌, arith, string_eq, nat_eq, option_eq,
}
use opsdesk.Enums.{
  TicketStatus, MessageKind, EmailDeliveryStatus, email_delivery_status_eq, message_kind_eq,
  ticket_status_eq, attachment_status_eq,
}
use opsdesk.Schema.{Attachment, Customer, EmailDelivery, Ticket}
use opsdesk.Tickets.Messages.{
  available, closed_to, customer_email, new_delivery, recipient_of, total_bytes,
}
use opsdesk.Tickets.Messages.Sending.{Fit, no_ids, nothing_available}

abbrev pub bytes_of : List Attachment → ℕ
bytes_of [] = 0
bytes_of (a ∷ rest) = a.size_bytes + bytes_of rest

total_bytes_lem : (xs : List Attachment) → total_bytes xs ≡ bytes_of xs
unfolding total_bytes
total_bytes_lem [] = refl
total_bytes_lem (a ∷ rest) = rw (total_bytes_lem rest)

bytes_none :
    (p : Attachment → Bool) (xs : List Attachment)
    → All (λ a. p a ≡ false) xs
    → bytes_of (find_many p xs) ≡ 0
unfolding find_many
bytes_none p [] n = refl
bytes_none p (x ∷ xs) n = rw n.0 (bytes_none p xs n.1)

length-find_many :
    (p : Attachment → Bool) (xs : List Attachment) → length (find_many p xs) ≡ count p xs
unfolding find_many count
length-find_many p [] = refl
length-find_many p (x ∷ xs) = elim (Bool-cases (p x)) [
  | inl e ↦ rw (e, length-find_many p xs)
  | inr e ↦ rw (e, length-find_many p xs)
]

-- what was checked, also where no attachment is named
pub fits_bytes :
    (org ticket_id : ℕ) (ids : List ℕ) (xs : List Attachment)
    → Fit org ticket_id ids xs
    → (count (available org ticket_id ids) xs ≡ length ids)
      × (bytes_of (find_many (available org ticket_id ids) xs) ≤ 50 * 1024 * 1024)
fits_bytes org ticket_id ids xs (inl few) =
    let off = nothing_available org ticket_id ids xs few in
    (
      count_none (available org ticket_id ids) xs off ∙ sym (no_ids ids few),
      rw (bytes_none (available org ticket_id ids) xs off) (omega arith),
    )
fits_bytes org ticket_id ids xs (inr (enough, bound)) = (
  sym (length-find_many (available org ticket_id ids) xs) ∙ enough,
  rw (sym (total_bytes_lem (find_many (available org ticket_id ids) xs))) bound,
)

pub not_closed_lem :
    (kind : MessageKind) (t : Ticket)
    → closed_to kind t ≡ false
    → kind ≡ MessageKind.public_reply
    → t.status ≢ TicketStatus.closed
not_closed_lem kind t h = ground (arith, h)

-- the address of a customer, trimmed and in lower case, if there is one
abbrev pub trimmed : (String → String) → Option String → Option String
trimmed trim_lower none = none
trimmed trim_lower (some email) = if trim_lower email == "" then none else some (trim_lower email)

abbrev pub address : (String → String) → Option Customer → Option String
address trim_lower none = none
address trim_lower (some c) = trimmed trim_lower c.email

trimmed_lem :
    (trim_lower : String → String) (email : Option String)
    → recipient_of trim_lower email ≡ trimmed trim_lower email
trimmed_lem trim_lower none = refl
trimmed_lem trim_lower (some email) = refl

pub address_lem :
    (trim_lower : String → String) (t : Ticket) (customers : List Customer)
    → recipient_of trim_lower (customer_email t customers)
      ≡ address trim_lower (find_first (λ c. c.id == t.customer_id) customers)
address_lem trim_lower t customers =
    elim (Option-cases (find_first (λ c. c.id == t.customer_id) customers)) [
      | inl e ↦ rw (e, customer_email) (trimmed_lem trim_lower none)
      | inr (c, e) ↦ rw (e, customer_email) (trimmed_lem trim_lower c.email)
    ]

-- the delivery of a reply: pending, or failed from the start for want of an address
abbrev pub opened : (org ticket_id message_id id now : ℕ) → Option String → EmailDelivery
opened org ticket_id message_id id now none = record {
  id = id;
  organization_id = org;
  ticket_id = ticket_id;
  message_id = message_id;
  recipient_email = none;
  status = EmailDeliveryStatus.failed;
  provider_message_id = none;
  attempt_count = 0;
  last_attempt_at = none;
  last_error = some "Customer has no email address";
  sent_at = none;
  delivered_at = none;
  failed_at = some now;
  created_at = now;
}
opened org ticket_id message_id id now (some recipient) = record {
  id = id;
  organization_id = org;
  ticket_id = ticket_id;
  message_id = message_id;
  recipient_email = some recipient;
  status = EmailDeliveryStatus.pending;
  provider_message_id = none;
  attempt_count = 0;
  last_attempt_at = none;
  last_error = none;
  sent_at = none;
  delivered_at = none;
  failed_at = none;
  created_at = now;
}

pub opened_lem :
    (org ticket_id message_id id now : ℕ) (recipient : Option String)
    → new_delivery org ticket_id message_id recipient id now
      ≡ opened org ticket_id message_id id now recipient
opened_lem org ticket_id message_id id now none = refl
opened_lem org ticket_id message_id id now (some recipient) = refl
