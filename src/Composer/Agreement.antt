-- ===== src/Composer/Agreement.antt =====
-- The composer and the API agree on what may be attached.
use opsdesk.Base.{Text, ℕ, ◌+◌, ◌≤◌, ◌≡◌, true, List, [], ◌∷◌}
use opsdesk.Attachments.Policy.{is_allowed_content_type}
use opsdesk.Attachments.Policy as Api
use opsdesk.Tickets.Messages as Replies
use opsdesk.Composer.{File}

abbrev pub total_size : List File → ℕ
total_size [] = 0
total_size (f ∷ fs) = f.size + total_size fs

module _ (to_lower : Text → Text) where
  -- the API's check of a single file
  abbrev pub IsAccepted : File → Type 0
  IsAccepted f =
      (is_allowed_content_type to_lower f.type ≡ true) × (f.size ≤ Api.max_attachment_size_bytes)
