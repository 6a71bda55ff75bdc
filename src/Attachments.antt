-- ===== src/Attachments.antt =====
-- AttachmentsService of apps/api/src/attachments/attachments.service.ts. The object store is an
-- argument: `head` is its answer to `headObject`, `deletes` whether it deletes an object, `signs`
-- whether it signs a URL; the deletions are recorded in the state. `others` is what other requests
-- commit while the service waits for it. `to_lower` and `nfkc` are those of Attachments/Policy.
pub mod Policy
pub mod Filenames
pub mod Cleanup
pub mod Completion
pub mod Kept
pub mod Reclaimed
use opsdesk.Base.{
  if◌then◌else◌, ◌==◌, ◌!=◌, find_first, count, update_many, delete_many, any, pure, throw, gets,
  or_throw, modify, reject, bad_request, not_found, conflict, unexpected, Text, ℕ, String, Bool,
  true, false, not, ◌&&◌, ◌||◌, Option, none, some, List, [], ◌∷◌, ◌>>=◌, ◌>>◌, option_eq, text_eq,
  nat_eq,
}
use opsdesk.Enums.{AttachmentStatus, attachment_status_eq}
use opsdesk.Schema.{Attachment, ObjectKey, TicketMessage}
use opsdesk.State.{State, TenantContext, Action}
use opsdesk.Tickets.Queries.{require_ticket}
use Policy.{
  normalize_content_type, is_allowed_content_type, sanitize_filename, filename_matches_content_type,
}

pub record InitiateAttachmentInput : Type 0 where
  pub original_name : Text
  pub content_type : Text
  pub size_bytes : ℕ

-- StoredObjectMetadata, with the entry `attachment-id` of its metadata
pub record StoredObject : Type 0 where
  pub content_length : Option ℕ
  pub content_type : Option Text
  pub etag : Option String
  pub attachment_id : Option ℕ

abbrev pub build_attachment_key : ℕ → ℕ → ℕ → ObjectKey
build_attachment_key org ticket_id id = record {
  key_organization_id = org;
  key_ticket_id = ticket_id;
  key_attachment_id = id;
}

abbrev pub new_attachment : TenantContext → ℕ → InitiateAttachmentInput → Text → ℕ → ℕ → Attachment
new_attachment tenant ticket_id input safe_filename id now = record {
  id = id;
  organization_id = tenant.organization_id;
  ticket_id = ticket_id;
  message_id = none;
  created_by_membership_id = some tenant.membership_id;
  object_key = build_attachment_key tenant.organization_id ticket_id id;
  original_name = safe_filename;
  content_type = input.content_type;
  size_bytes = input.size_bytes;
  status = AttachmentStatus.pending;
  etag = none;
  uploaded_at = none;
  created_at = now;
}

-- The row comes before the URL: if signing fails, the row stays.
unfoldable pub initiate_upload :
    (to_lower nfkc : Text → Text) (signs : ObjectKey → Bool) (others : State → State)
    → TenantContext
    → (ticket_id : ℕ) → InitiateAttachmentInput
    → (id now : ℕ) → Action Attachment
initiate_upload to_lower nfkc signs others tenant ticket_id input id now = do
  let content_type = normalize_content_type to_lower input.content_type
  reject (not (is_allowed_content_type to_lower content_type))
      (bad_request "Attachment type is not allowed")
  let safe_filename = sanitize_filename nfkc input.original_name
  reject (not (filename_matches_content_type to_lower safe_filename content_type))
      (bad_request "Filename extension does not match attachment type")
  ticket ← require_ticket tenant.organization_id ticket_id
  modify others
  let attachment = new_attachment tenant ticket.id input safe_filename id now
  modify (λ w. record w { attachments = attachment ∷ w.attachments })
  reject (not (signs attachment.object_key)) (unexpected "object storage")
  pure attachment

abbrev pub is_attachment : ℕ → ℕ → ℕ → Attachment → Bool
is_attachment org ticket_id id a =
    (a.id == id) && (a.organization_id == org) && (a.ticket_id == ticket_id)

abbrev delete_object : ObjectKey → Action Unit
delete_object key = modify (λ w. record w { deleted_objects = key ∷ w.deleted_objects })

-- a failure of the object store is swallowed, and leaves the row
unfoldable pub reject_invalid_upload : (ObjectKey → Bool) → Attachment → String → Action Attachment
reject_invalid_upload deletes a message = do
  if deletes a.object_key
      then (do
        delete_object a.object_key
        modify (λ w. record w {
          attachments =
              delete_many (λ x. (x.id == a.id) && (x.status == AttachmentStatus.pending))
                w.attachments;
        }))
      else pure tt
  throw (conflict message)

-- `!object.contentType || normalize(object.contentType) !== normalize(attachment.contentType)`
abbrev pub is_type_mismatch : (Text → Text) → Text → Option Text → Bool
is_type_mismatch to_lower expected none = true
is_type_mismatch to_lower expected (some t) =
    (t == []) || (normalize_content_type to_lower t != normalize_content_type to_lower expected)

-- the first check that the stored object fails
unfoldable pub invalid_upload : (Text → Text) → Attachment → StoredObject → Option String
invalid_upload to_lower a object =
    if object.content_length != some a.size_bytes
    then some "Uploaded file size does not match attachment metadata"
    else if is_type_mismatch to_lower a.content_type object.content_type
    then some "Uploaded file type does not match attachment metadata"
    else if object.attachment_id != some a.id
    then some "Uploaded object metadata is invalid"
    else none

abbrev pub with_upload : ℕ → Option String → Attachment → Attachment
with_upload now etag a = record a {
  status = AttachmentStatus.uploaded;
  uploaded_at = some now;
  etag = etag;
}

abbrev pub is_pending_upload : ℕ → ℕ → ℕ → Attachment → Bool
is_pending_upload org ticket_id id a =
    is_attachment org ticket_id id a && (a.status == AttachmentStatus.pending)

-- a row that another completion has uploaded is the answer, too
abbrev uploaded_by_other : Option Attachment → Action Attachment
uploaded_by_other none = throw (conflict "Attachment state changed concurrently")
uploaded_by_other (some a) =
    if a.status == AttachmentStatus.uploaded
    then pure a
    else throw (conflict "Attachment state changed concurrently")

unfoldable pub mark_uploaded : TenantContext → ℕ → ℕ → Option String → ℕ → Action Attachment
mark_uploaded tenant ticket_id id etag now = do
  updated ← gets (λ w. count (is_pending_upload tenant.organization_id ticket_id id) w.attachments)
  modify (λ w. record w {
    attachments =
        update_many (is_pending_upload tenant.organization_id ticket_id id) (with_upload now etag)
          w.attachments;
  })
  current ← gets (λ w. find_first (is_attachment tenant.organization_id ticket_id id) w.attachments)
  if updated != 1
      then uploaded_by_other current
      else or_throw current (not_found "Attachment not found")

-- what follows the answer of `headObject`
unfoldable pub check_upload :
    (Text → Text)
    → (ObjectKey → Bool)
    → TenantContext
    → ℕ
    → Attachment
    → Option StoredObject
    → ℕ
    → Action Attachment
check_upload to_lower deletes tenant ticket_id a none now =
    throw (conflict "Attachment upload has not completed")
check_upload to_lower deletes tenant ticket_id a (some object) now =
    elim (invalid_upload to_lower a object) [
      | some message ↦ reject_invalid_upload deletes a message
      | none ↦ mark_uploaded tenant ticket_id a.id object.etag now
    ]

unfoldable pub complete_upload :
    (Text → Text)
    → (head : ObjectKey → Option StoredObject) (deletes : ObjectKey → Bool) (others : State → State)
    → TenantContext
    → (ticket_id id now : ℕ) → Action Attachment
complete_upload to_lower head deletes others tenant ticket_id id now = do
  found ← gets (λ w. find_first (is_attachment tenant.organization_id ticket_id id) w.attachments)
  a ← or_throw found (not_found "Attachment not found")
  if a.status == AttachmentStatus.uploaded then pure a else do
    modify others
    check_upload to_lower deletes tenant ticket_id a (head a.object_key) now

abbrev pub is_message_of : ℕ → ℕ → ℕ → TicketMessage → Bool
is_message_of org ticket_id id m =
    (m.id == id) && (m.organization_id == org) && (m.ticket_id == ticket_id)

-- the message of an attachment stands in the ticket
abbrev pub is_linked_in : ℕ → ℕ → List TicketMessage → Option ℕ → Bool
is_linked_in org ticket_id messages none = false
is_linked_in org ticket_id messages (some id) = any (is_message_of org ticket_id id) messages

unfoldable pub create_download_url :
    (signs : ObjectKey → Bool) → TenantContext → (ticket_id id : ℕ) → Action Attachment
create_download_url signs tenant ticket_id id = do
  found ← gets (λ w.
      find_first
        (λ a.
          is_attachment tenant.organization_id ticket_id id a
          && (a.status == AttachmentStatus.uploaded)
          && is_linked_in tenant.organization_id ticket_id w.messages a.message_id)
        w.attachments)
  a ← or_throw found (not_found "Attachment not found")
  reject (not (signs a.object_key)) (unexpected "object storage")
  pure a
