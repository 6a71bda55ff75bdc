-- ===== src/Attachments/Filenames.antt =====
-- What a sanitized file name is, whatever name was sent.
use opsdesk.Base.{
  nat_beq, Bool-cases, length, take, All, Text, is_space, drop_while, trim_text, All-drop_while,
  All-trim_text, ℕ, zero, suc, ◌≤◌, ◌≡◌, refl, ◌≢◌, inl, inr, Bool, true, false, [], ◌∷◌, arith,
}
use opsdesk.Attachments.Policy.{
  is_control, is_slash, sanitize_filename, single_spaces, without_controls, without_slashes,
  or_attachment,
}

abbrev pub IsSafe : ℕ → Type 0
IsSafe c = (is_control c ≡ false) × (is_slash c ≡ false)

All-take : (P : ℕ → Type 0) (n : ℕ) (s : Text) → All P s → All P (take n s)
All-take P zero s a = tt
All-take P (suc n) [] a = tt
All-take P (suc n) (c ∷ s) a = (a.0, All-take P n s a.1)

without_controls-All : (s : Text) → All (λ c. is_control c ≡ false) (without_controls s)
unfolding without_controls
without_controls-All [] = tt
without_controls-All (c ∷ s) = elim (Bool-cases (is_control c)) [
  | inl e ↦ rw e (without_controls-All s)
  | inr e ↦ rw e (e, without_controls-All s)
]

without_slashes-All :
    (s : Text) → All (λ c. is_control c ≡ false) s → All IsSafe (without_slashes s)
unfolding without_slashes
without_slashes-All [] a = tt
without_slashes-All (c ∷ s) a = elim (Bool-cases (is_slash c)) [
  | inl e ↦ rw e ((refl, refl), without_slashes-All s a.1)
  | inr e ↦ rw e ((a.0, e), without_slashes-All s a.1)
]

single_spaces-All : (after : Bool) (s : Text) → All IsSafe s → All IsSafe (single_spaces after s)
unfolding single_spaces
single_spaces-All after [] a = tt
single_spaces-All true (c ∷ s) a = elim (Bool-cases (is_space c)) [
  | inl e ↦ rw (single_spaces, e) (single_spaces-All true s a.1)
  | inr e ↦ rw (single_spaces, e) (a.0, single_spaces-All false s a.1)
]
single_spaces-All false (c ∷ s) a = elim (Bool-cases (is_space c)) [
  | inl e ↦ rw (single_spaces, e) ((refl, refl), single_spaces-All true s a.1)
  | inr e ↦ rw (single_spaces, e) (a.0, single_spaces-All false s a.1)
]

or_attachment-All : (s : Text) → All IsSafe s → All IsSafe (or_attachment s)
or_attachment-All [] a = (
  (refl, refl),
  (
    (refl, refl),
    (
      (refl, refl),
      (
        (refl, refl),
        (
          (refl, refl),
          ((refl, refl), ((refl, refl), ((refl, refl), ((refl, refl), ((refl, refl), tt))))),
        ),
      ),
    ),
  ),
)
or_attachment-All (c ∷ s) a = a

length-take-le : (n : ℕ) (s : Text) → length (take n s) ≤ n
length-take-le zero s = omega arith
length-take-le (suc n) [] = omega arith
length-take-le (suc n) (c ∷ s) = omega (arith, length-take-le n s)

-- the first character, if there is one, is no dot
abbrev pub StartsPlain : Text → Type 0
StartsPlain [] = ⊥
StartsPlain (c ∷ s) = c ≢ b'.'

undotted : (s : Text) → StartsPlain (or_attachment (drop_while (λ c. nat_beq c b'.') s))
unfolding drop_while
undotted [] = λ h. omega arith
undotted (c ∷ s) = elim (Bool-cases (nat_beq c b'.')) [
  | inl e ↦ rw e (undotted s)
  | inr e ↦ rw e (λ h. ground (arith, e, h))
]

take-StartsPlain : (n : ℕ) (s : Text) → StartsPlain s → StartsPlain (take (suc n) s)
take-StartsPlain n [] h = h
take-StartsPlain n (c ∷ s) h = h

-- A sanitized file name has at least one and at most 200 characters, none of which is a control
-- character or a slash, and does not start with a dot, whatever name was sent and however it was
-- normalized.
pub sanitize_filename-IsSafe :
    (nfkc : Text → Text) (filename : Text)
    → (length (sanitize_filename nfkc filename) ≤ 200)
      × All IsSafe (sanitize_filename nfkc filename)
      × StartsPlain (sanitize_filename nfkc filename)
unfolding sanitize_filename
sanitize_filename-IsSafe nfkc filename =
    let cleaned = without_slashes (without_controls (nfkc filename)) in
    let safe = trim_text (single_spaces false cleaned) in
    let undot = drop_while (λ c. nat_beq c b'.') safe in
    (
      length-take-le 200 (or_attachment undot),
      All-take IsSafe 200 (or_attachment undot) (
          or_attachment-All undot (
            All-drop_while IsSafe (λ c. nat_beq c b'.') safe
              (All-trim_text IsSafe (single_spaces false cleaned) (
                single_spaces-All false cleaned (
                  without_slashes-All (without_controls (nfkc filename))
                    (without_controls-All (nfkc filename))))))),
      take-StartsPlain 199 (or_attachment undot) (undotted safe),
    )
