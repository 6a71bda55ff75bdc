-- ===== src/Enums.antt =====
-- The enums of apps/api/prisma/schema.prisma that the services compare.
use opsdesk.Base.{ℕ, ◌≡◌, ◌↔◌, true, arith, Eq, nat_beq}

pub data Role : Type 0 where
  owner admin agent viewer : Role

abbrev role_index : Role → ℕ
role_index owner = 0
role_index admin = 1
role_index agent = 2
role_index viewer = 3

pub role_beq_iff : (a b : Role) → (nat_beq (role_index a) (role_index b) ≡ true) ↔ (a ≡ b)
role_beq_iff a b = ground arith

instance abbrev pub role_eq : Eq Role
role_eq = record { beq = λ a b. nat_beq (role_index a) (role_index b); beq_iff = role_beq_iff }

pub data TicketStatus : Type 0 where
  opened pending resolved closed : TicketStatus

abbrev ticket_status_index : TicketStatus → ℕ
ticket_status_index opened = 0
ticket_status_index pending = 1
ticket_status_index resolved = 2
ticket_status_index closed = 3

pub ticket_status_beq_iff :
    (a b : TicketStatus)
    → (nat_beq (ticket_status_index a) (ticket_status_index b) ≡ true) ↔ (a ≡ b)
ticket_status_beq_iff a b = ground arith

instance abbrev pub ticket_status_eq : Eq TicketStatus
ticket_status_eq = record {
  beq = λ a b. nat_beq (ticket_status_index a) (ticket_status_index b);
  beq_iff = ticket_status_beq_iff;
}

pub data TicketPriority : Type 0 where
  low normal high urgent : TicketPriority

abbrev ticket_priority_index : TicketPriority → ℕ
ticket_priority_index low = 0
ticket_priority_index normal = 1
ticket_priority_index high = 2
ticket_priority_index urgent = 3

pub ticket_priority_beq_iff :
    (a b : TicketPriority)
    → (nat_beq (ticket_priority_index a) (ticket_priority_index b) ≡ true) ↔ (a ≡ b)
ticket_priority_beq_iff a b = ground arith

instance abbrev pub ticket_priority_eq : Eq TicketPriority
ticket_priority_eq = record {
  beq = λ a b. nat_beq (ticket_priority_index a) (ticket_priority_index b);
  beq_iff = ticket_priority_beq_iff;
}

pub data TicketSource : Type 0 where
  manual email : TicketSource

abbrev ticket_source_index : TicketSource → ℕ
ticket_source_index manual = 0
ticket_source_index email = 1

pub ticket_source_beq_iff :
    (a b : TicketSource)
    → (nat_beq (ticket_source_index a) (ticket_source_index b) ≡ true) ↔ (a ≡ b)
ticket_source_beq_iff a b = ground arith

instance abbrev pub ticket_source_eq : Eq TicketSource
ticket_source_eq = record {
  beq = λ a b. nat_beq (ticket_source_index a) (ticket_source_index b);
  beq_iff = ticket_source_beq_iff;
}

pub data MessageKind : Type 0 where
  public_reply internal_note : MessageKind

abbrev message_kind_index : MessageKind → ℕ
message_kind_index public_reply = 0
message_kind_index internal_note = 1

pub message_kind_beq_iff :
    (a b : MessageKind) → (nat_beq (message_kind_index a) (message_kind_index b) ≡ true) ↔ (a ≡ b)
message_kind_beq_iff a b = ground arith

instance abbrev pub message_kind_eq : Eq MessageKind
message_kind_eq = record {
  beq = λ a b. nat_beq (message_kind_index a) (message_kind_index b);
  beq_iff = message_kind_beq_iff;
}

pub data AuthorType : Type 0 where
  member customer system : AuthorType

abbrev author_type_index : AuthorType → ℕ
author_type_index member = 0
author_type_index customer = 1
author_type_index system = 2

pub author_type_beq_iff :
    (a b : AuthorType) → (nat_beq (author_type_index a) (author_type_index b) ≡ true) ↔ (a ≡ b)
author_type_beq_iff a b = ground arith

instance abbrev pub author_type_eq : Eq AuthorType
author_type_eq = record {
  beq = λ a b. nat_beq (author_type_index a) (author_type_index b);
  beq_iff = author_type_beq_iff;
}

pub data MessageSource : Type 0 where
  manual email system : MessageSource

abbrev message_source_index : MessageSource → ℕ
message_source_index manual = 0
message_source_index email = 1
message_source_index system = 2

pub message_source_beq_iff :
    (a b : MessageSource)
    → (nat_beq (message_source_index a) (message_source_index b) ≡ true) ↔ (a ≡ b)
message_source_beq_iff a b = ground arith

instance abbrev pub message_source_eq : Eq MessageSource
message_source_eq = record {
  beq = λ a b. nat_beq (message_source_index a) (message_source_index b);
  beq_iff = message_source_beq_iff;
}

pub data AttachmentStatus : Type 0 where
  pending uploaded : AttachmentStatus

abbrev attachment_status_index : AttachmentStatus → ℕ
attachment_status_index pending = 0
attachment_status_index uploaded = 1

pub attachment_status_beq_iff :
    (a b : AttachmentStatus)
    → (nat_beq (attachment_status_index a) (attachment_status_index b) ≡ true) ↔ (a ≡ b)
attachment_status_beq_iff a b = ground arith

instance abbrev pub attachment_status_eq : Eq AttachmentStatus
attachment_status_eq = record {
  beq = λ a b. nat_beq (attachment_status_index a) (attachment_status_index b);
  beq_iff = attachment_status_beq_iff;
}

pub data WebhookEventStatus : Type 0 where
  processed ignored : WebhookEventStatus

abbrev webhook_event_status_index : WebhookEventStatus → ℕ
webhook_event_status_index processed = 0
webhook_event_status_index ignored = 1

pub webhook_event_status_beq_iff :
    (a b : WebhookEventStatus)
    → (nat_beq (webhook_event_status_index a) (webhook_event_status_index b) ≡ true) ↔ (a ≡ b)
webhook_event_status_beq_iff a b = ground arith

instance abbrev pub webhook_event_status_eq : Eq WebhookEventStatus
webhook_event_status_eq = record {
  beq = λ a b. nat_beq (webhook_event_status_index a) (webhook_event_status_index b);
  beq_iff = webhook_event_status_beq_iff;
}

pub data EmailDeliveryStatus : Type 0 where
  pending sending sent delayed delivered bounced complained suppressed failed : EmailDeliveryStatus

abbrev email_delivery_status_index : EmailDeliveryStatus → ℕ
email_delivery_status_index pending = 0
email_delivery_status_index sending = 1
email_delivery_status_index sent = 2
email_delivery_status_index delayed = 3
email_delivery_status_index delivered = 4
email_delivery_status_index bounced = 5
email_delivery_status_index complained = 6
email_delivery_status_index suppressed = 7
email_delivery_status_index failed = 8

pub email_delivery_status_beq_iff :
    (a b : EmailDeliveryStatus)
    → (nat_beq (email_delivery_status_index a) (email_delivery_status_index b) ≡ true) ↔ (a ≡ b)
email_delivery_status_beq_iff a b = ground arith

instance abbrev pub email_delivery_status_eq : Eq EmailDeliveryStatus
email_delivery_status_eq = record {
  beq = λ a b. nat_beq (email_delivery_status_index a) (email_delivery_status_index b);
  beq_iff = email_delivery_status_beq_iff;
}
