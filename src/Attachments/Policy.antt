-- ===== src/Attachments/Policy.antt =====
-- apps/api/src/attachments/attachment-policy.ts. `to_lower` stands for `toLowerCase()`, `nfkc` for
-- `normalize('NFKC')`.
use opsdesk.Base.{
  leb, nat_beq, if◌then◌else◌, ◌==◌, take, any, Text, codes, is_space, drop_while, trim_text,
  before_first, ends_with, ℕ, ◌*◌, Bool, true, false, ◌||◌, List, [], ◌∷◌, text_eq, nat_eq,
}

abbrev pub max_attachment_size_bytes : ℕ
max_attachment_size_bytes = 25 * 1024 * 1024

abbrev pub pending_upload_max_age_ms : ℕ
pending_upload_max_age_ms = 60 * 60 * 1000

abbrev pub unlinked_upload_max_age_ms : ℕ
unlinked_upload_max_age_ms = 24 * 60 * 60 * 1000

-- ALLOWED_ATTACHMENT_CONTENT_TYPES with EXTENSIONS_BY_CONTENT_TYPE
pub extensions_by_content_type : List (Text × List Text)
extensions_by_content_type =
    (codes "application/pdf", codes ".pdf" ∷ [])
    ∷ (codes "image/jpeg", codes ".jpg" ∷ codes ".jpeg" ∷ [])
    ∷ (codes "image/png", codes ".png" ∷ [])
    ∷ (codes "image/webp", codes ".webp" ∷ [])
    ∷ (codes "image/gif", codes ".gif" ∷ [])
    ∷ (codes "text/plain", codes ".txt" ∷ [])
    ∷ (codes "text/csv", codes ".csv" ∷ [])
    ∷ (
      codes "application/vnd.openxmlformats-officedocument.wordprocessingml.document",
      codes ".docx" ∷ [],
    )
    ∷ (
      codes "application/vnd.openxmlformats-officedocument.spreadsheetml.sheet",
      codes ".xlsx" ∷ [],
    )
    ∷ (
      codes "application/vnd.openxmlformats-officedocument.presentationml.presentation",
      codes ".pptx" ∷ [],
    )
    ∷ []

-- `contentType.split(';', 1)[0].trim().toLowerCase()`
unfoldable pub normalize_content_type : (Text → Text) → Text → Text
normalize_content_type to_lower t = to_lower (trim_text (before_first b';' t))

unfoldable pub is_allowed_content_type : (Text → Text) → Text → Bool
unfolding extensions_by_content_type
is_allowed_content_type to_lower t =
    any (λ e. e.0 == normalize_content_type to_lower t) extensions_by_content_type

-- the extensions of an allowed type
unfoldable pub extensions_of : Text → List (Text × List Text) → List Text
extensions_of t [] = []
extensions_of t ((u, extensions) ∷ rest) = if u == t then extensions else extensions_of t rest

unfoldable pub filename_matches_content_type : (Text → Text) → Text → Text → Bool
unfolding extensions_by_content_type
filename_matches_content_type to_lower filename t =
    any (ends_with (to_lower filename)) (extensions_of t extensions_by_content_type)

-- `/[\u0000-\u001f\u007f]/g`
abbrev pub is_control : ℕ → Bool
is_control c = leb c 0x1f || nat_beq c 0x7f

unfoldable pub without_controls : Text → Text
without_controls [] = []
without_controls (c ∷ s) = let rest = without_controls s in if is_control c then rest else c ∷ rest

abbrev pub is_slash : ℕ → Bool
is_slash c = nat_beq c b'/' || nat_beq c 92

unfoldable pub without_slashes : Text → Text
without_slashes [] = []
without_slashes (c ∷ s) = (if is_slash c then b'_' else c) ∷ without_slashes s

-- a run of white space becomes one space; the flag says that the last one was white space
unfoldable pub single_spaces : Bool → Text → Text
single_spaces after_space [] = []
single_spaces after_space (c ∷ s) = elim (is_space c) [
  | true ↦ if after_space then single_spaces true s else b' ' ∷ single_spaces true s
  | false ↦ c ∷ single_spaces false s
]

abbrev pub or_attachment : Text → Text
or_attachment [] = codes "attachment"
or_attachment (c ∷ s) = c ∷ s

unfoldable pub sanitize_filename : (Text → Text) → Text → Text
sanitize_filename nfkc filename =
    let safe =
      trim_text (single_spaces false (without_slashes (without_controls (nfkc filename)))) in
    take 200 (or_attachment (drop_while (λ c. nat_beq c b'.') safe))
