-- ===== src/Composer.antt =====
-- apps/web/src/lib/attachments/policy.ts: what the web application's composer checks before files
-- are uploaded. `to_lower` stands for `toLowerCase()`.
pub mod Agreement
use opsdesk.Base.{
  if◌then◌else◌, ltb, ◌==◌, length, any, Text, codes, trim_text, before_first, ℕ, ◌+◌, ◌*◌, Bool,
  true, false, not, Option, none, some, List, [], ◌∷◌, ◌++◌, text_eq,
}

abbrev pub max_attachment_size_bytes : ℕ
max_attachment_size_bytes = 25 * 1024 * 1024

abbrev pub max_attachments_per_message : ℕ
max_attachments_per_message = 10

abbrev pub max_message_attachments_bytes : ℕ
max_message_attachments_bytes = 50 * 1024 * 1024

pub allowed_attachment_content_types : List Text
allowed_attachment_content_types =
    codes "application/pdf"
    ∷ codes "image/jpeg"
    ∷ codes "image/png"
    ∷ codes "image/webp"
    ∷ codes "image/gif"
    ∷ codes "text/plain"
    ∷ codes "text/csv"
    ∷ codes "application/vnd.openxmlformats-officedocument.wordprocessingml.document"
    ∷ codes "application/vnd.openxmlformats-officedocument.spreadsheetml.sheet"
    ∷ codes "application/vnd.openxmlformats-officedocument.presentationml.presentation"
    ∷ []

-- the browser's file
pub record File : Type 0 where
  pub name : Text
  pub type : Text
  pub size : ℕ

module _ (to_lower : Text → Text) where
  unfoldable pub is_allowed_type : Text → Bool
  unfolding allowed_attachment_content_types
  is_allowed_type type =
      any (λ t. t == to_lower (trim_text (before_first b';' type))) allowed_attachment_content_types

  -- the loop, with the total so far
  unfoldable pub check_files : List File → ℕ → Option Text
  check_files [] total =
      if ltb max_message_attachments_bytes total
      then some (codes "Attachments exceed the 50 MB total limit.")
      else none
  check_files (f ∷ fs) total =
      let rest = check_files fs (total + f.size) in
      if not (is_allowed_type f.type)
      then some (f.name ++ codes " is not an allowed file type.")
      else if ltb max_attachment_size_bytes f.size
      then some (f.name ++ codes " exceeds the 25 MB limit.")
      else rest

  unfoldable pub validate_files : List File → Option Text
  validate_files files =
      if ltb max_attachments_per_message (length files)
      then some (codes "A message can contain at most 10 attachments.")
      else check_files files 0
