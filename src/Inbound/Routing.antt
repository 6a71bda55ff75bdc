-- ===== src/Inbound/Routing.antt =====
-- apps/api/src/email/inbound-email-routing.ts: the address that the replies to a ticket go to, and
-- the ticket that the recipients of an email name. `to_lower` stands for `toLowerCase()`.
pub mod Addresses
use opsdesk.Base.{
  leb, nat_beq, if◌then◌else◌, length, take, drop, Text, codes, trim_text, starts_with, ends_with,
  ℕ, zero, suc, ◌-◌, Bool, true, false, ◌&&◌, ◌||◌, Option, none, some, List, [], ◌∷◌, ◌++◌,
}

-- `[0-9a-f]` with the flag `i`
abbrev pub is_hex : ℕ → Bool
is_hex c = (leb b'0' c && leb c b'9') || (leb b'a' c && leb c b'f') || (leb b'A' c && leb c b'F')

abbrev is_dash : ℕ → Bool
is_dash c = nat_beq c b'-'

-- `[89ab]` with the flag `i`
abbrev is_variant : ℕ → Bool
is_variant c =
    nat_beq c b'8'
    || nat_beq c b'9'
    || nat_beq c b'a'
    || nat_beq c b'b'
    || nat_beq c b'A'
    || nat_beq c b'B'

abbrev times : ℕ → (ℕ → Bool) → List (ℕ → Bool) → List (ℕ → Bool)
times zero f fs = fs
times (suc n) f fs = f ∷ times n f fs

abbrev pub uuid_v4_pattern : List (ℕ → Bool)
uuid_v4_pattern = times 8 is_hex (
    is_dash
    ∷ times 4 is_hex (
        is_dash
        ∷ nat_beq b'4'
        ∷ times 3 is_hex (is_dash ∷ is_variant ∷ times 3 is_hex (is_dash ∷ times 12 is_hex []))))

-- `pattern.test` for a pattern of a test for each character, from `^` to `$`
unfoldable pub matches : List (ℕ → Bool) → Text → Bool
matches [] [] = true
matches (f ∷ fs) (c ∷ s) = f c && matches fs s
matches _ _ = false

-- `[^<>]*>` at the head of a text: what stands before the bracket
unfoldable pub until_close : Text → Option Text
until_close [] = none
until_close (c ∷ s) = elim (nat_beq c b'>') [
  | true ↦ some []
  | false ↦ elim (nat_beq c b'<') [
    | true ↦ none
    | false ↦ elim (until_close s) [ none ↦ none | some t ↦ some (c ∷ t) ]
  ]
]

-- the group of `/<([^<>]+)>/`, which is not empty, at its first match
unfoldable pub angle_bracket_match : Text → Option Text
angle_bracket_match [] = none
angle_bracket_match (c ∷ s) = elim (nat_beq c b'<') [
  | true ↦ elim (until_close s) [ some (d ∷ t) ↦ some (d ∷ t) | _ ↦ angle_bracket_match s ]
  | false ↦ angle_bracket_match s
]

abbrev pub or_text : Option Text → Text → Text
or_text none s = s
or_text (some t) s = t

-- the ticket that one recipient names: the body of the loop, `none` for its `continue`
unfoldable pub ticket_id_of_address : Text → Text → Option Text
ticket_id_of_address suffix address =
    if ends_with address suffix
    then (let local_part = take (length address - length suffix) address in
        if starts_with local_part (codes "ticket-")
        then (let ticket_id = drop 7 local_part in
            if matches uuid_v4_pattern ticket_id then some ticket_id else none)
        else none)
    else none

module _ (to_lower : Text → Text) where
  unfoldable pub normalize_email_address : Text → Text
  normalize_email_address value =
      let trimmed = trim_text value in
      to_lower (trim_text (or_text (angle_bracket_match trimmed) trimmed))

  unfoldable pub build_ticket_reply_address : Text → Text → Text
  build_ticket_reply_address ticket_id inbound_domain =
      to_lower ((codes "ticket-" ++ ticket_id) ++ (b'@' ∷ inbound_domain))

  unfoldable pub first_ticket_id : Text → List Text → Option Text
  first_ticket_id suffix [] = none
  first_ticket_id suffix (recipient ∷ rest) =
      elim (ticket_id_of_address suffix (normalize_email_address recipient)) [
        | some ticket_id ↦ some ticket_id
        | none ↦ first_ticket_id suffix rest
      ]

  unfoldable pub extract_ticket_id_from_recipients : List Text → Text → Option Text
  extract_ticket_id_from_recipients recipients inbound_domain =
      first_ticket_id (b'@' ∷ to_lower (trim_text inbound_domain)) recipients
