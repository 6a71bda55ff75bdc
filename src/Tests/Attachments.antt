-- ===== src/Tests/Attachments.antt =====
-- Uploads of organization 1.
use opsdesk.Base.{
  ◌==◌, length, find_first, find_many, count, update_many, delete_many, All, ok, codes, is_space,
  drop_while, trim_text, before_first, starts_with, ends_with, ℕ, ◌≤◌, ◌≡◌, refl, ◌⊎◌, true, Option,
  none, some, [], ◌∷◌, arith, option_eq, text_eq, nat_eq,
}
use opsdesk.Enums.{AttachmentStatus, attachment_status_eq}
use opsdesk.Schema.{Attachment, ObjectKey}
use opsdesk.State.{State, Action}
use opsdesk.Tests.Sample.{cat, as_tenant}
use opsdesk.Tests.Tickets.{desk, file_of, reply, with_files, replied_alone}
use opsdesk.Tickets.Messages.{create_message, total_bytes, max_message_attachments_bytes, linked_to}
use opsdesk.Tickets.Messages.Links.{of_message}
use opsdesk.Tickets.Messages.Limits.{create_message_limit}
use opsdesk.Tickets.Queries.{require_ticket}
use opsdesk.Attachments.{
  InitiateAttachmentInput, initiate_upload, StoredObject, complete_upload, check_upload,
  invalid_upload, mark_uploaded, is_attachment, new_attachment,
}
use opsdesk.Attachments.Policy.{
  sanitize_filename, normalize_content_type, is_allowed_content_type, filename_matches_content_type,
  extensions_of, without_controls, without_slashes, single_spaces,
}
use opsdesk.Attachments.Filenames.{sanitize_filename-IsSafe, IsSafe, StartsPlain}
use opsdesk.Attachments.Completion.{complete_upload_outcome, Verified}
use opsdesk.Attachments.Cleanup.{
  cleanup_attachments, cleanup_abandoned_uploads, clean_each, clean_one, CleanupResult,
  is_abandoned,
}
use opsdesk.Attachments.Kept.{cleanup_keeps_linked, HasRow}
use opsdesk.Attachments.Reclaimed.{cleanup_reclaims}
use opsdesk.Listing.Order.{order_by, insert_by}

cleaned_up : sanitize_filename (λ s. s) (codes "..\\etc/pass  wd.txt ") ≡ codes "_etc_pass wd.txt"
unfolding sanitize_filename without_controls without_slashes single_spaces is_space trim_text
    drop_while
cleaned_up = refl

allowed : is_allowed_content_type (λ s. s) (codes " text/csv ; charset=utf-8") ≡ true
unfolding is_allowed_content_type normalize_content_type trim_text drop_while before_first
allowed = refl

matches : filename_matches_content_type (λ s. s) (codes "a.jpeg") (codes "image/jpeg") ≡ true
unfolding filename_matches_content_type extensions_of ends_with starts_with
matches = refl

abbrev photo : InitiateAttachmentInput
photo = record { original_name = codes "a.png"; content_type = codes "image/png"; size_bytes = 10 }

abbrev announced : Attachment
announced = new_attachment (as_tenant cat) 1 photo (codes "a.png") 4 100

initiated :
    (initiate_upload (λ s. s) (λ s. s) (λ k. true) (λ v. v) (as_tenant cat) 1 photo 4 100 desk).0
    ≡ ok announced
unfolding initiate_upload require_ticket find_first is_allowed_content_type normalize_content_type
    filename_matches_content_type extensions_of ends_with starts_with sanitize_filename
    without_controls without_slashes single_spaces is_space trim_text drop_while before_first
initiated = refl

sanitize_filename-IsSafe_example :
    (length (sanitize_filename (λ s. s) (codes "../a")) ≤ 200)
    × All IsSafe (sanitize_filename (λ s. s) (codes "../a"))
    × StartsPlain (sanitize_filename (λ s. s) (codes "../a"))
sanitize_filename-IsSafe_example = sanitize_filename-IsSafe (λ s. s) (codes "../a")

abbrev uploading : State
uploading = record desk { attachments = announced ∷ [] }

abbrev stored_photo : ObjectKey → Option StoredObject
stored_photo k = some (record {
  content_length = some 10;
  content_type = some (codes "image/png");
  etag = none;
  attachment_id = some k.key_attachment_id;
})

abbrev complete_photo : Action Attachment
complete_photo = complete_upload (λ s. s) stored_photo (λ k. true) (λ v. v) (as_tenant cat) 1 4 200

completed :
    (complete_photo uploading).0
    ≡ ok (record announced {
      status = AttachmentStatus.uploaded;
      uploaded_at = some 200;
      etag = none;
    })
unfolding complete_upload check_upload invalid_upload mark_uploaded find_first count update_many
    normalize_content_type trim_text drop_while before_first
completed = refl

complete_upload_outcome_example :
    (AttachmentStatus.uploaded ≡ AttachmentStatus.uploaded)
    × (is_attachment 1 1 4 (record announced {
      status = AttachmentStatus.uploaded;
      uploaded_at = some 200;
      etag = none;
    })
        ≡ true)
    × ((complete_photo uploading ≡ (
      ok (record announced {
        status = AttachmentStatus.uploaded;
        uploaded_at = some 200;
        etag = none;
      }),
      uploading,
    ))
        ⊎ ((b : Attachment) × (find_first (is_attachment 1 1 4) uploading.attachments ≡ some b)
            × Verified (λ s. s) stored_photo b))
complete_upload_outcome_example =
    complete_upload_outcome (λ s. s) stored_photo (λ k. true) (λ v. v) (as_tenant cat) 1 4 200
      uploading completed

-- a file that a message has, and one that nobody completed
abbrev linked_file : Attachment
linked_file = linked_to 5 (file_of 1 10)

abbrev two_files : State
two_files = record desk { attachments = linked_file ∷ announced ∷ [] }

cleanup_keeps_linked_example :
    HasRow linked_file (cleanup_attachments (λ id v. v) (λ k. true) 90000000 two_files).1
unfolding find_first
cleanup_keeps_linked_example =
    cleanup_keeps_linked (λ id v. v) (λ k. true) 90000000 linked_file two_files refl (λ id v h. h)
      refl

few_abandoned : count (is_abandoned 90000000) two_files.attachments ≤ 100
unfolding count
few_abandoned = omega arith

cleanup_reclaims_example :
    (r : CleanupResult) × ((cleanup_attachments (λ id v. v) (λ key. true) 90000000 two_files).0
      ≡ ok r)
    × (r.deleted ≡ r.scanned)
    × (count
          (is_abandoned 90000000)
          (cleanup_attachments (λ id v. v) (λ key. true) 90000000 two_files).1.attachments
        ≡ 0)
cleanup_reclaims_example =
    cleanup_reclaims 90000000 two_files (λ h. absurd (ground (arith, h)), (λ h. refl, tt))
      few_abandoned

create_message_limit_example :
    total_bytes (
      find_many
        (of_message 5)
        (create_message
          (λ s. s)
          (λ v. v)
          (λ _. true)
          (as_tenant cat)
          1
          reply
          5
          6
          7
          with_files).1.attachments)
    ≤ max_message_attachments_bytes
create_message_limit_example =
    create_message_limit (λ s. s) (λ _. true) (as_tenant cat) 1 reply 5 6 7 with_files
      (refl, (refl, (refl, tt))) replied_alone

-- A message takes the file between the scan and the deletion of its object: the row stays, linked
-- to the message, and its object is gone.
abbrev takes_file : ℕ → State → State
takes_file id v = record v {
  attachments = update_many (λ a. a.id == id) (linked_to 5) v.attachments;
}

abbrev unused : State
unused = record desk { attachments = file_of 1 10 ∷ [] }

abbrev object_lost : State
object_lost = (cleanup_attachments takes_file (λ k. true) 90000000 unused).1

lost_object :
    (object_lost.attachments ≡ linked_file ∷ [])
    × (object_lost.deleted_objects ≡ linked_file.object_key ∷ [])
unfolding cleanup_attachments cleanup_abandoned_uploads clean_each clean_one order_by insert_by
    find_many update_many delete_many
lost_object = (refl, refl)
