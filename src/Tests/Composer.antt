-- ===== src/Tests/Composer.antt =====
-- Files in the composer.
use opsdesk.Base.{
  Text, codes, is_space, drop_while, trim_text, before_first, ◌≡◌, refl, none, some, [], ◌∷◌,
}
use opsdesk.Composer.{File, validate_files, check_files, is_allowed_type}

abbrev as_typed : Text → Text
as_typed s = s

abbrev note : File
note = record { name = codes "a.txt"; type = codes "text/plain; charset=utf-8"; size = 26214400 }

accepted : validate_files as_typed (note ∷ note ∷ []) ≡ none
unfolding validate_files check_files is_allowed_type trim_text drop_while is_space before_first
accepted = refl

over_total :
    validate_files as_typed (note ∷ note ∷ note ∷ [])
    ≡ some (codes "Attachments exceed the 50 MB total limit.")
unfolding validate_files check_files is_allowed_type trim_text drop_while is_space before_first
over_total = refl
