-- ===== src/State.antt =====
-- What the services share: the tables of the database, and what they hand to the realtime gateway
-- and to the job queue. Fresh rows and calls stand at the head of their lists.
use opsdesk.Base.{Exec, ℕ, List}
use opsdesk.Enums.{Role, EmailDeliveryStatus}
use opsdesk.Schema.{
  Organization, ObjectKey, User, Membership, Invitation, Customer, Ticket, Tag, TicketTag,
  TicketMessage, Attachment, WebhookEvent, EmailDelivery, AuditLog,
}

-- The tenant of a request, as the tenancy guard resolved it.
pub record TenantContext : Type 0 where
  pub user_id : ℕ
  pub organization_id : ℕ
  pub membership_id : ℕ
  pub role : Role

-- The calls of RealtimeService.
pub data Published : Type 0 where
  ticket_created ticket_updated : (organization_id ticket_id : ℕ) → Published
  message_created : (organization_id ticket_id message_id : ℕ) → Published
  email_delivery_updated :
      (organization_id ticket_id message_id delivery_id : ℕ) → EmailDeliveryStatus → Published

pub record State : Type 0 where
  pub organizations : List Organization
  pub users : List User
  pub memberships : List Membership
  pub invitations : List Invitation
  pub customers : List Customer
  pub tickets : List Ticket
  pub tags : List Tag
  pub ticket_tags : List TicketTag
  pub messages : List TicketMessage
  pub attachments : List Attachment
  pub webhook_events : List WebhookEvent
  pub deliveries : List EmailDelivery
  pub audit_logs : List AuditLog
  pub published : List Published
  -- deliveries passed to `ensureEmailDeliveryQueued`
  pub queued : List ℕ
  -- objects that were deleted from the object store
  pub deleted_objects : List ObjectKey

abbrev pub Action : Type 0 → Type 0
Action A = Exec State A
