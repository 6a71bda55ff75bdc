-- ===== src/Tests/Routing.antt =====
-- Addresses of replies.
use opsdesk.Base.{
  Text, codes, is_space, drop_while, trim_text, starts_with, ends_with, ◌≡◌, refl, Bool, true, ◌&&◌,
  none, some, List, [], ◌∷◌, ◌++◌, arith,
}
use opsdesk.Inbound.Routing.{
  matches, until_close, angle_bracket_match, normalize_email_address, build_ticket_reply_address,
  ticket_id_of_address, first_ticket_id, extract_ticket_id_from_recipients,
}
use opsdesk.Inbound.Routing.Addresses.{is_plain, Plain, reply_address-roundtrip}

abbrev some_id : Text
some_id = codes "819f42f7-5181-4eb7-9f33-256c89ff6f4c"

abbrev some_domain : Text
some_domain = codes "abc.resend.app"

abbrev as_is : Text → Text
as_is s = s

abbrev all_plain : Text → Bool
all_plain [] = true
all_plain (c ∷ s) = is_plain c && all_plain s

-- a test of the characters of a concrete text
all_plain-Plain : (s : Text) → all_plain s ≡ true → Plain s
all_plain-Plain [] h = tt
all_plain-Plain (c ∷ s) h = (ground (arith, h), all_plain-Plain s (ground (arith, h)))

named_address :
    normalize_email_address as_is (codes " Jane <jane@example.com>") ≡ codes "jane@example.com"
unfolding normalize_email_address trim_text drop_while is_space angle_bracket_match until_close
named_address = refl

unrelated :
    extract_ticket_id_from_recipients as_is (codes "hello@example.com" ∷ []) some_domain ≡ none
unfolding extract_ticket_id_from_recipients first_ticket_id ticket_id_of_address ends_with
    starts_with normalize_email_address trim_text drop_while is_space angle_bracket_match
    until_close
unrelated = refl

-- the address behind a name, among others
abbrev recipients : List Text
recipients =
    (codes "hello@example.com" ∷ [])
    ++ ((codes "Ops "
          ++ (b'<' ∷ (build_ticket_reply_address as_is some_id some_domain ++ (b'>' ∷ []))))
        ∷ [])

reply_address-roundtrip_example :
    (extract_ticket_id_from_recipients as_is
        ((codes "hello@example.com" ∷ [])
          ++ (build_ticket_reply_address as_is some_id some_domain ∷ []))
        some_domain
      ≡ some some_id)
    × (extract_ticket_id_from_recipients as_is recipients some_domain ≡ some some_id)
unfolding matches
reply_address-roundtrip_example =
    reply_address-roundtrip as_is (λ s a. refl) some_id some_domain (codes "Ops ")
      (codes "hello@example.com" ∷ []) [] refl (all_plain-Plain some_id refl)
      (all_plain-Plain some_domain refl) (refl, (refl, (refl, (refl, tt)))) unrelated
