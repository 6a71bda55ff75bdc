-- ===== src/Schema.antt =====
-- The models of apps/api/prisma/schema.prisma, a record for each row. An identifier (a UUID) is a
-- number, which the program only compares; a `DateTime` is its milliseconds.
use opsdesk.Base.{nat_beq, Eq, Text, ℕ, String, ◌≡◌, ◌↔◌, true, Option, List, arith}
use opsdesk.Enums.{
  Role, TicketStatus, TicketPriority, TicketSource, MessageKind, AuthorType, MessageSource,
  AttachmentStatus, WebhookEventStatus, EmailDeliveryStatus,
}

pub record User : Type 0 where
  pub id : ℕ
  pub auth_provider_id : String
  pub email : String
  pub name : Option String
  pub avatar_url : Option String

pub record Organization : Type 0 where
  pub id : ℕ
  pub name : Text
  pub slug : Text
  pub created_at : ℕ
  pub updated_at : ℕ

pub record Membership : Type 0 where
  pub id : ℕ
  pub user_id : ℕ
  pub organization_id : ℕ
  pub role : Role
  pub created_at : ℕ
  pub updated_at : ℕ

pub record Invitation : Type 0 where
  pub id : ℕ
  pub organization_id : ℕ
  pub email : String
  pub role : Role
  pub token_hash : String
  pub invited_by_user_id : ℕ
  pub accepted_by_user_id : Option ℕ
  pub expires_at : ℕ
  pub accepted_at : Option ℕ
  pub canceled_at : Option ℕ
  pub created_at : ℕ
  pub updated_at : ℕ

pub record Customer : Type 0 where
  pub id : ℕ
  pub organization_id : ℕ
  pub name : String
  pub email : Option String
  pub phone : Option String
  pub company : Option String
  pub notes : Option String
  pub archived_at : Option ℕ
  pub created_at : ℕ
  pub updated_at : ℕ

pub record Ticket : Type 0 where
  pub id : ℕ
  pub organization_id : ℕ
  pub customer_id : ℕ
  pub assignee_membership_id : Option ℕ
  pub subject : String
  pub description : Option String
  pub status : TicketStatus
  pub priority : TicketPriority
  pub source : TicketSource
  pub resolved_at : Option ℕ
  pub closed_at : Option ℕ
  pub created_at : ℕ
  pub updated_at : ℕ

pub record Tag : Type 0 where
  pub id : ℕ
  pub organization_id : ℕ
  pub name : String
  pub normalized_name : String
  pub created_at : ℕ

pub record TicketTag : Type 0 where
  pub ticket_id : ℕ
  pub tag_id : ℕ

pub record TicketMessage : Type 0 where
  pub id : ℕ
  pub organization_id : ℕ
  pub ticket_id : ℕ
  pub author_membership_id : Option ℕ
  pub kind : MessageKind
  pub author_type : AuthorType
  pub source : MessageSource
  pub body : String
  pub created_at : ℕ

-- A key of the object store, `organizations/…/tickets/…/attachments/…`; the ids hold no slash.
pub record ObjectKey : Type 0 where
  pub key_organization_id : ℕ
  pub key_ticket_id : ℕ
  pub key_attachment_id : ℕ

pub record Attachment : Type 0 where
  pub id : ℕ
  pub organization_id : ℕ
  pub ticket_id : ℕ
  pub message_id : Option ℕ
  pub created_by_membership_id : Option ℕ
  pub object_key : ObjectKey
  pub original_name : Text
  pub content_type : Text
  pub size_bytes : ℕ
  pub status : AttachmentStatus
  pub etag : Option String
  pub uploaded_at : Option ℕ
  pub created_at : ℕ

-- The provider column has one value, RESEND, and is left out.
pub record WebhookEvent : Type 0 where
  pub event_type : String
  pub provider_entity_id : String
  pub webhook_message_id : String
  pub status : WebhookEventStatus
  pub reason : Option String

pub record EmailDelivery : Type 0 where
  pub id : ℕ
  pub organization_id : ℕ
  pub ticket_id : ℕ
  pub message_id : ℕ
  pub recipient_email : Option String
  pub status : EmailDeliveryStatus
  pub provider_message_id : Option String
  pub attempt_count : ℕ
  pub last_attempt_at : Option ℕ
  pub last_error : Option String
  pub sent_at : Option ℕ
  pub delivered_at : Option ℕ
  pub failed_at : Option ℕ
  pub created_at : ℕ

pub data AuditAction : Type 0 where
  organization_created : AuditAction
  customer_created customer_updated customer_archived customer_restored : AuditAction
  ticket_created ticket_updated ticket_status_changed ticket_assignee_changed : AuditAction
  ticket_tag_added ticket_tag_removed ticket_message_created : AuditAction
  tag_created member_role_changed : AuditAction
  invitation_created invitation_canceled invitation_accepted : AuditAction

pub data AuditEntityType : Type 0 where
  organization customer ticket ticket_message tag membership invitation : AuditEntityType

abbrev audit_action_index : AuditAction → ℕ
audit_action_index AuditAction.organization_created = 0
audit_action_index AuditAction.customer_created = 1
audit_action_index AuditAction.customer_updated = 2
audit_action_index AuditAction.customer_archived = 3
audit_action_index AuditAction.customer_restored = 4
audit_action_index AuditAction.ticket_created = 5
audit_action_index AuditAction.ticket_updated = 6
audit_action_index AuditAction.ticket_status_changed = 7
audit_action_index AuditAction.ticket_assignee_changed = 8
audit_action_index AuditAction.ticket_tag_added = 9
audit_action_index AuditAction.ticket_tag_removed = 10
audit_action_index AuditAction.ticket_message_created = 11
audit_action_index AuditAction.tag_created = 12
audit_action_index AuditAction.member_role_changed = 13
audit_action_index AuditAction.invitation_created = 14
audit_action_index AuditAction.invitation_canceled = 15
audit_action_index AuditAction.invitation_accepted = 16

pub audit_action_beq_iff :
    (a b : AuditAction) → (nat_beq (audit_action_index a) (audit_action_index b) ≡ true) ↔ (a ≡ b)
audit_action_beq_iff a b = ground arith

instance abbrev pub audit_action_eq : Eq AuditAction
audit_action_eq = record {
  beq = λ a b. nat_beq (audit_action_index a) (audit_action_index b);
  beq_iff = audit_action_beq_iff;
}

abbrev audit_entity_type_index : AuditEntityType → ℕ
audit_entity_type_index AuditEntityType.organization = 0
audit_entity_type_index AuditEntityType.customer = 1
audit_entity_type_index AuditEntityType.ticket = 2
audit_entity_type_index AuditEntityType.ticket_message = 3
audit_entity_type_index AuditEntityType.tag = 4
audit_entity_type_index AuditEntityType.membership = 5
audit_entity_type_index AuditEntityType.invitation = 6

pub audit_entity_type_beq_iff :
    (a b : AuditEntityType)
    → (nat_beq (audit_entity_type_index a) (audit_entity_type_index b) ≡ true) ↔ (a ≡ b)
audit_entity_type_beq_iff a b = ground arith

instance abbrev pub audit_entity_type_eq : Eq AuditEntityType
audit_entity_type_eq = record {
  beq = λ a b. nat_beq (audit_entity_type_index a) (audit_entity_type_index b);
  beq_iff = audit_entity_type_beq_iff;
}

-- A value of the `metadata` column; enum members keep their type here.
pub data MetadataValue : Type 0 where
  text : String → MetadataValue
  texts : List String → MetadataValue
  key : Option ℕ → MetadataValue
  amount : ℕ → MetadataValue
  role : Role → MetadataValue
  ticket_status : TicketStatus → MetadataValue
  ticket_priority : TicketPriority → MetadataValue
  ticket_source : TicketSource → MetadataValue
  message_kind : MessageKind → MetadataValue
  message_source : MessageSource → MetadataValue
  author_type : AuthorType → MetadataValue

pub record AuditLog : Type 0 where
  pub organization_id : ℕ
  pub actor_user_id : Option ℕ
  pub actor_membership_id : Option ℕ
  pub actor_role : Option Role
  pub action : AuditAction
  pub entity_type : AuditEntityType
  pub entity_id : Option ℕ
  pub metadata : List (String × MetadataValue)
  pub created_at : ℕ
