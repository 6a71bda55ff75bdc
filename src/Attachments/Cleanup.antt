-- ===== src/Attachments/Cleanup.antt =====
-- `cleanupAbandonedUploads` of AttachmentsService, and the job of
-- apps/api/src/jobs/maintenance.worker.ts that runs it. `others id` is what other requests commit
-- before the object of the attachment is deleted.
use opsdesk.Base.{
  ltb, if◌then◌else◌, ◌==◌, length, take, find_many, delete_many, pure, gets, modify, reject,
  Failure, unexpected, ℕ, ◌+◌, Bool, true, false, ◌&&◌, ◌||◌, none, List, [], ◌∷◌, ◌>>=◌, ◌>>◌,
  nat_eq, option_eq,
}
use opsdesk.Enums.{AttachmentStatus, attachment_status_eq}
use opsdesk.Schema.{Attachment, ObjectKey}
use opsdesk.State.{State, Action}
use opsdesk.Attachments.Policy.{pending_upload_max_age_ms, unlinked_upload_max_age_ms}
use opsdesk.Listing.Order.{order_by}

-- never completed, or completed and not used by a message, for too long
abbrev pub is_abandoned : ℕ → Attachment → Bool
is_abandoned now a =
    ((a.status == AttachmentStatus.pending) && ltb (a.created_at + pending_upload_max_age_ms) now)
    || ((a.status == AttachmentStatus.uploaded)
        && (a.message_id == none)
        && ltb (a.created_at + unlinked_upload_max_age_ms) now)

abbrev pub oldest_first : Attachment → Attachment → Bool
oldest_first a b = ltb a.created_at b.created_at

abbrev pub candidates : ℕ → State → List Attachment
candidates now w = take 100 (order_by oldest_first (find_many (is_abandoned now) w.attachments))

abbrev pub is_unlinked : ℕ → Attachment → Bool
is_unlinked id a = (a.id == id) && (a.message_id == none)

abbrev pub without_object : ObjectKey → State → State
without_object key w = record w { deleted_objects = key ∷ w.deleted_objects }

abbrev pub without_row : ℕ → State → State
without_row id w = record w { attachments = delete_many (is_unlinked id) w.attachments }

-- the object, then the row if no message has it; whether the object store deleted the object
unfoldable pub clean_one : (ObjectKey → Bool) → Attachment → Action Bool
clean_one deletes a =
    if deletes a.object_key
    then (do modify (without_object a.object_key); modify (without_row a.id); pure true)
    else pure false

pub record CleanupResult : Type 0 where
  pub scanned : ℕ
  pub deleted : ℕ
  pub failed : ℕ

abbrev pub counted : Bool → CleanupResult → CleanupResult
counted true r = record r { deleted = r.deleted + 1 }
counted false r = record r { failed = r.failed + 1 }

unfoldable pub clean_each :
    (ℕ → State → State)
    → (ObjectKey → Bool)
    → CleanupResult
    → List Attachment
    → Action CleanupResult
clean_each others deletes r [] = pure r
clean_each others deletes r (a ∷ rest) = do
  modify (others a.id)
  done ← clean_one deletes a
  clean_each others deletes (counted done r) rest

abbrev pub started : List Attachment → CleanupResult
started found = record { scanned = length found; deleted = 0; failed = 0 }

unfoldable pub cleanup_abandoned_uploads :
    (others : ℕ → State → State) (deletes : ObjectKey → Bool) (now : ℕ) → Action CleanupResult
cleanup_abandoned_uploads others deletes now = do
  found ← gets (candidates now)
  clean_each others deletes (started found) found

abbrev pub incomplete : Failure
incomplete = unexpected "Attachment cleanup completed with failures"

-- the job fails if an object is left, so that it runs again
unfoldable pub cleanup_attachments :
    (others : ℕ → State → State) (deletes : ObjectKey → Bool) (now : ℕ) → Action CleanupResult
cleanup_attachments others deletes now = do
  result ← cleanup_abandoned_uploads others deletes now
  reject (ltb 0 result.failed) incomplete
  pure result
