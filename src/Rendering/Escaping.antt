-- ===== src/Rendering/Escaping.antt =====
-- Escaped text holds no markup, and reads as what was escaped.
use opsdesk.Base.{
  nat_beq, if◌then◌else◌, nat_beq_iff, Bool-cases, All, Text, codes, starts_with, ℕ, zero, suc, ◌≡◌,
  refl, sym, ap, subst, ◌∙◌, inl, inr, Bool, false, ◌||◌, Option, none, some, [], ◌∷◌, ◌++◌, arith,
}
use mathlib.Core.List.{append_assoc}
use opsdesk.Rendering.{replace_all, escape_html}

-- a character that could open or close a tag or end an attribute
abbrev pub is_markup : ℕ → Bool
is_markup c = nat_beq c b'<' || nat_beq c b'>' || nat_beq c 34 || nat_beq c 39

-- the character that an HTML entity at the head of a text stands for, and the entity's length
-- after its first character
abbrev pub entity_at : Text → Option (ℕ × ℕ)
entity_at s =
    if starts_with s (codes "&amp;")
    then some (b'&', 4)
    else if starts_with s (codes "&lt;")
    then some (b'<', 3)
    else if starts_with s (codes "&gt;")
    then some (b'>', 3)
    else if starts_with s (codes "&quot;")
    then some (34, 5)
    else if starts_with s (codes "&#039;")
    then some (39, 5)
    else none

-- what an HTML reader makes of a text without tags, after a number of characters to be left out
unfoldable pub read_html : ℕ → Text → Text
read_html n [] = []
read_html (suc n) (c ∷ s) = read_html n s
read_html zero (c ∷ s) = elim (entity_at (c ∷ s)) [
  | none ↦ c ∷ read_html 0 s
  | some e ↦ e.0 ∷ read_html e.1 s
]

abbrev read_as : Option (ℕ × ℕ) → ℕ → Text → Text
read_as o c s = elim o [ none ↦ c ∷ read_html 0 s | some e ↦ e.0 ∷ read_html e.1 s ]

abbrev escaped : ℕ → Text
escaped c =
    if nat_beq c b'&'
    then codes "&amp;"
    else if nat_beq c b'<'
    then codes "&lt;"
    else if nat_beq c b'>'
    then codes "&gt;"
    else if nat_beq c 34
    then codes "&quot;"
    else if nat_beq c 39
    then codes "&#039;"
    else c ∷ []

abbrev Unescaped : ℕ → Type 0
Unescaped c =
    (nat_beq c b'&' ≡ false)
    × (nat_beq c b'<' ≡ false)
    × (nat_beq c b'>' ≡ false)
    × (nat_beq c 34 ≡ false)
    × (nat_beq c 39 ≡ false)

unless : (P : ℕ → Type 0) (d c : ℕ) → P d → (nat_beq c d ≡ false → P c) → P c
unless P d c h k = elim (Bool-cases (nat_beq c d)) [
  | inl e ↦ subst P (sym ((nat_beq_iff c d).0 e)) h
  | inr e ↦ k e
]

-- a character is one of the five that are escaped, or none of them
by_escape :
    (P : ℕ → Type 0)
    → P b'&'
    → P b'<'
    → P b'>'
    → P 34
    → P 39
    → ((c : ℕ) → Unescaped c → P c)
    → (c : ℕ) → P c
by_escape P amp lt gt quot apos other c = unless P b'&' c amp (λ a. unless P b'<' c lt (λ l.
    unless P b'>' c gt
      (λ g. unless P 34 c quot (λ q. unless P 39 c apos (λ p. other c (a, l, g, q, p))))))

replace_all-append :
    (d : ℕ) (t a b : Text) → replace_all d t (a ++ b) ≡ replace_all d t a ++ replace_all d t b
unfolding replace_all
replace_all-append d t [] b = refl
replace_all-append d t (c ∷ a) b = elim (Bool-cases (nat_beq c d)) [
  | inl e ↦
      rw (replace_all, e)
        (ap (λ r. t ++ r) (replace_all-append d t a b)
          ∙ sym (append_assoc t (replace_all d t a) (replace_all d t b)))
  | inr e ↦ rw (replace_all, e) (ap (λ r. c ∷ r) (replace_all-append d t a b))
]

escape_html-append : (a b : Text) → escape_html (a ++ b) ≡ escape_html a ++ escape_html b
unfolding escape_html
escape_html-append a b =
    rw
      (
        replace_all-append b'&' (codes "&amp;") a b,
        replace_all-append b'<' (codes "&lt;") _ _,
        replace_all-append b'>' (codes "&gt;") _ _,
        replace_all-append 34 (codes "&quot;") _ _,
        replace_all-append 39 (codes "&#039;") _ _,
      )
      refl

-- the five replacements one after another are one replacement of each character
escape_html-one : (c : ℕ) → escape_html (c ∷ []) ≡ escaped c
unfolding escape_html replace_all
escape_html-one =
    by_escape (λ c. escape_html (c ∷ []) ≡ escaped c) refl refl refl refl refl
      (λ c (a, l, g, q, p). rw (replace_all, a, l, g, q, p) refl)

escape_html-cons : (c : ℕ) (s : Text) → escape_html (c ∷ s) ≡ escaped c ++ escape_html s
escape_html-cons c s =
    escape_html-append (c ∷ []) s ∙ ap (λ r. r ++ escape_html s) (escape_html-one c)

escaped-All : (c : ℕ) → All (λ d. is_markup d ≡ false) (escaped c)
escaped-All =
    by_escape (λ c. All (λ d. is_markup d ≡ false) (escaped c))
      (refl, (refl, (refl, (refl, (refl, tt))))) (refl, (refl, (refl, (refl, tt))))
      (refl, (refl, (refl, (refl, tt)))) (refl, (refl, (refl, (refl, (refl, (refl, tt))))))
      (refl, (refl, (refl, (refl, (refl, (refl, tt))))))
      (λ c (a, l, g, q, p). rw (a, l, g, q, p) (ground arith, tt))

entity_at-none : (c : ℕ) (s : Text) → nat_beq c b'&' ≡ false → entity_at (c ∷ s) ≡ none
unfolding starts_with
entity_at-none c s h = ground (arith, h)

read_html-escaped : (c : ℕ) (s : Text) → read_html 0 (escaped c ++ s) ≡ c ∷ read_html 0 s
unfolding read_html starts_with
read_html-escaped c s =
    by_escape (λ d. read_html 0 (escaped d ++ s) ≡ d ∷ read_html 0 s) refl refl refl refl refl
      (λ d (a, l, g, q, p). rw (a, l, g, q, p) (ap (λ o. read_as o d s) (entity_at-none d s a))) c

All-append : (P : ℕ → Type 0) (s t : Text) → All P s → All P t → All P (s ++ t)
All-append P [] t a b = b
All-append P (c ∷ s) t a b = (a.0, All-append P s t a.1 b)

-- Whatever text is escaped, the result holds no angle bracket and no quote, and an HTML reader
-- reads it as the text.
pub escape_html-roundtrip :
    (s : Text) → All (λ c. is_markup c ≡ false) (escape_html s) × (read_html 0 (escape_html s) ≡ s)
unfolding escape_html replace_all read_html
escape_html-roundtrip [] = (tt, refl)
escape_html-roundtrip (c ∷ s) = rw (escape_html-cons c s) (
  All-append _ (escaped c) (escape_html s) (escaped-All c) (escape_html-roundtrip s).0,
  read_html-escaped c (escape_html s) ∙ ap (λ r. c ∷ r) (escape_html-roundtrip s).1,
)
