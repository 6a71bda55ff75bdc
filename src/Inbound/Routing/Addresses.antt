-- ===== src/Inbound/Routing/Addresses.antt =====
-- The address of a ticket leads back to the ticket.
use opsdesk.Base.{
  leb, nat_beq, Option-cases, length, take, All, All-map, Text, codes, is_space, drop_while,
  starts_with, ends_with, All-drop_while, reverse-append, trim_text-NoSpace, trim_text-append, ℕ,
  ◌+◌, ◌-◌, ◌≡◌, refl, ap, ◌∙◌, inl, inr, Bool, true, false, ◌&&◌, ◌||◌, none, some, List, [], ◌∷◌,
  ◌++◌, arith,
}
use mathlib.Core.List.{reverse}
use opsdesk.Inbound.Routing.{
  angle_bracket_match, build_ticket_reply_address, extract_ticket_id_from_recipients,
  first_ticket_id, matches, normalize_email_address, ticket_id_of_address, until_close,
  uuid_v4_pattern,
}

-- a lower case letter, a digit, or one of `-`, `.`, `@`
abbrev pub is_plain : ℕ → Bool
is_plain c =
    (leb b'a' c && leb c b'z')
    || (leb b'0' c && leb c b'9')
    || nat_beq c b'-'
    || nat_beq c b'.'
    || nat_beq c b'@'

abbrev pub Plain : Text → Type 0
Plain = All (λ c. is_plain c ≡ true)

-- what `toLowerCase` leaves as it is
abbrev pub KeepsPlain : (Text → Text) → Type 0
KeepsPlain to_lower = (s : Text) → Plain s → to_lower s ≡ s

plain_not_space : (c : ℕ) → is_plain c ≡ true → is_space c ≡ false
unfolding is_space
plain_not_space c h = ground (arith, h)

plain_no_bracket : (c : ℕ) → is_plain c ≡ true → (nat_beq c b'<' ≡ false) × (nat_beq c b'>' ≡ false)
plain_no_bracket c h = ground (arith, h)

Plain-append : (s t : Text) → Plain s → Plain t → Plain (s ++ t)
Plain-append [] t a b = b
Plain-append (c ∷ s) t a b = (a.0, Plain-append s t a.1 b)

starts_with-append : (p s : Text) → starts_with (p ++ s) p ≡ true
unfolding starts_with
starts_with-append [] s = refl
starts_with-append (c ∷ p) s = ground (arith, starts_with-append p s)

ends_with-append : (s t : Text) → ends_with (s ++ t) t ≡ true
unfolding ends_with
ends_with-append s t = rw (reverse-append s t) (starts_with-append (reverse t) (reverse s))

length-append : (s t : Text) → length (s ++ t) ≡ length s + length t
length-append [] t = omega arith
length-append (c ∷ s) t = omega (arith, length-append s t)

take-append : (s t : Text) → take (length s) (s ++ t) ≡ s
take-append [] t = refl
take-append (c ∷ s) t = ap (λ r. c ∷ r) (take-append s t)

take_off : (s t : Text) → take (length (s ++ t) - length t) (s ++ t) ≡ s
take_off s t = ap (λ n. take n (s ++ t)) (omega (arith, length-append s t)) ∙ take-append s t

until_close-Plain : (t rest : Text) → Plain t → until_close (t ++ (b'>' ∷ rest)) ≡ some t
unfolding until_close
until_close-Plain [] rest a = refl
until_close-Plain (c ∷ t) rest a =
    rw
      (
        until_close,
        (plain_no_bracket c a.0).1,
        (plain_no_bracket c a.0).0,
        until_close-Plain t rest a.1,
      )
      refl

angle_bracket_match-append :
    (s : Text) (c : ℕ) (t : Text)
    → All (λ d. nat_beq d b'<' ≡ false) s
    → Plain (c ∷ t)
    → angle_bracket_match (s ++ (b'<' ∷ ((c ∷ t) ++ (b'>' ∷ [])))) ≡ some (c ∷ t)
unfolding angle_bracket_match
angle_bracket_match-append [] c t a b =
    rw (angle_bracket_match, until_close-Plain (c ∷ t) [] b) refl
angle_bracket_match-append (d ∷ s) c t a b =
    rw (angle_bracket_match, a.0) (angle_bracket_match-append s c t a.1 b)

angle_bracket_match-Plain : (s : Text) → Plain s → angle_bracket_match s ≡ none
unfolding angle_bracket_match
angle_bracket_match-Plain [] a = refl
angle_bracket_match-Plain (c ∷ s) a =
    rw (angle_bracket_match, (plain_no_bracket c a.0).0) (angle_bracket_match-Plain s a.1)

Plain-NoSpace : (s : Text) → Plain s → All (λ c. is_space c ≡ false) s
Plain-NoSpace s = All-map (λ c. is_plain c ≡ true) (λ c. is_space c ≡ false) s plain_not_space

module _ (to_lower : Text → Text) (keeps : KeepsPlain to_lower) where
  normalize_bare : (s : Text) → Plain s → normalize_email_address to_lower s ≡ s
  unfolding normalize_email_address
  normalize_bare s a =
      rw
        (
          trim_text-NoSpace s (Plain-NoSpace s a),
          angle_bracket_match-Plain s a,
          trim_text-NoSpace s (Plain-NoSpace s a),
        )
        (keeps s a)

  normalize_named :
      (name : Text) (c : ℕ) (s : Text)
      → All (λ d. nat_beq d b'<' ≡ false) name
      → Plain (c ∷ s)
      → normalize_email_address to_lower (name ++ (b'<' ∷ ((c ∷ s) ++ (b'>' ∷ [])))) ≡ c ∷ s
  unfolding normalize_email_address is_space
  normalize_named name c s a b =
      rw
        (
          trim_text-append name b'<' (c ∷ s) b'>' refl refl,
          angle_bracket_match-append (drop_while is_space name) c s
              (All-drop_while _ is_space name a) b,
          trim_text-NoSpace (c ∷ s) (Plain-NoSpace (c ∷ s) b),
        )
        (keeps (c ∷ s) b)

ticket_id_of_address-built :
    (id domain : Text)
    → matches uuid_v4_pattern id ≡ true
    → ticket_id_of_address (b'@' ∷ domain) ((codes "ticket-" ++ id) ++ (b'@' ∷ domain)) ≡ some id
unfolding ticket_id_of_address
ticket_id_of_address-built id domain h =
    rw
      (
        ends_with-append (codes "ticket-" ++ id) (b'@' ∷ domain),
        take_off (codes "ticket-" ++ id) (b'@' ∷ domain),
        starts_with-append (codes "ticket-") id,
        h,
      )
      refl

first_ticket_id-append :
    (to_lower : Text → Text) (suffix : Text) (earlier : List Text) (r : Text) (later : List Text)
    (id : Text)
    → first_ticket_id to_lower suffix earlier ≡ none
    → ticket_id_of_address suffix (normalize_email_address to_lower r) ≡ some id
    → first_ticket_id to_lower suffix (earlier ++ (r ∷ later)) ≡ some id
unfolding first_ticket_id
first_ticket_id-append to_lower suffix [] r later id none_before h = rw (first_ticket_id, h) refl
first_ticket_id-append to_lower suffix (e ∷ earlier) r later id none_before h =
    elim (Option-cases (ticket_id_of_address suffix (normalize_email_address to_lower e))) [
      | inl k ↦
          rw (first_ticket_id, k)
            (first_ticket_id-append to_lower suffix earlier r later id
              (rw (first_ticket_id, k) at none_before) h)
      | inr k ↦ ground (arith, rw (first_ticket_id, k.1) at none_before)
    ]

-- Where lower-casing keeps lower case letters, digits, dots and dashes, the reply address of a
-- ticket leads back to the ticket: if the ticket's id is a UUID of version 4 in lower case, the
-- domain has only such characters and no earlier recipient names a ticket of the domain, then the
-- address as a recipient, bare or in angle brackets behind a name without an opening bracket,
-- yields the id.
pub reply_address-roundtrip :
    (to_lower : Text → Text)
    → KeepsPlain to_lower
    → (ticket_id domain name : Text) (earlier later : List Text)
    → matches uuid_v4_pattern ticket_id ≡ true
    → Plain ticket_id
    → Plain domain
    → All (λ c. nat_beq c b'<' ≡ false) name
    → extract_ticket_id_from_recipients to_lower earlier domain ≡ none
    → let address = build_ticket_reply_address to_lower ticket_id domain in
      (extract_ticket_id_from_recipients to_lower (earlier ++ (address ∷ later)) domain
        ≡ some ticket_id)
      × (extract_ticket_id_from_recipients to_lower
            (earlier ++ ((name ++ (b'<' ∷ (address ++ (b'>' ∷ [])))) ∷ later))
            domain
          ≡ some ticket_id)
unfolding extract_ticket_id_from_recipients build_ticket_reply_address
reply_address-roundtrip to_lower keeps id domain name earlier later v4 i d n none_before =
    let plain =
      Plain-append (codes "ticket-" ++ id) (b'@' ∷ domain)
        (Plain-append (codes "ticket-") id
          (refl, (refl, (refl, (refl, (refl, (refl, (refl, tt))))))) i)
        (refl, d) in
    rw
      (
        keeps ((codes "ticket-" ++ id) ++ (b'@' ∷ domain)) plain,
        trim_text-NoSpace domain (Plain-NoSpace domain d),
        keeps domain d,
      )
      (
        first_ticket_id-append to_lower (b'@' ∷ domain) earlier _ later id
            (rw (trim_text-NoSpace domain (Plain-NoSpace domain d), keeps domain d) at none_before)
            (rw (normalize_bare to_lower keeps _ plain) (ticket_id_of_address-built id domain v4)),
        first_ticket_id-append to_lower (b'@' ∷ domain) earlier _ later id
            (rw (trim_text-NoSpace domain (Plain-NoSpace domain d), keeps domain d) at none_before)
            (rw (normalize_named to_lower keeps name _ _ n plain)
              (ticket_id_of_address-built id domain v4)),
      )
