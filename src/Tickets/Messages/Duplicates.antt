-- ===== src/Tickets/Messages/Duplicates.antt =====
-- The values of `new Set(ids)` are as many as the ids only if those are distinct.
use opsdesk.Base.{
  Bool-cases, length, All, All-map, Distinct, ℕ, ◌≤◌, ◌≡◌, refl, ap, ◌≢◌, inl, inr, false, List, [],
  ◌∷◌, arith,
}
use opsdesk.Tickets.Messages.{includes, unique_from, unique}

unique_from-length : (seen xs : List ℕ) → length (unique_from seen xs) ≤ length xs
unfolding unique_from
unique_from-length seen [] = omega arith
unique_from-length seen (x ∷ xs) = elim (Bool-cases (includes seen x)) [
  | inl e ↦ rw (e, length) (omega (arith, unique_from-length seen xs))
  | inr e ↦ rw (e, length) (omega (arith, unique_from-length (x ∷ seen) xs))
]

not_first : (seen : List ℕ) (x y : ℕ) → includes (x ∷ seen) y ≡ false → y ≢ x
not_first seen x y h = ground (arith, h)

not_later : (seen : List ℕ) (x y : ℕ) → includes (x ∷ seen) y ≡ false → includes seen y ≡ false
not_later seen x y h = ground (arith, h)

-- if no value was dropped, none came twice or had been seen
abbrev AllKept : List ℕ → List ℕ → Type 0
AllKept seen xs =
    (unique_from seen xs ≡ xs) × Distinct (λ i. i) xs × All (λ y. includes seen y ≡ false) xs

unique_from_kept : (seen xs : List ℕ) → length (unique_from seen xs) ≡ length xs → AllKept seen xs
unfolding unique_from
unique_from_kept seen [] h = (refl, tt, tt)
unique_from_kept seen (x ∷ xs) h = elim (Bool-cases (includes seen x)) [
  | inl e ↦ absurd (omega (arith, rw (e, length) at h, unique_from-length seen xs))
  | inr e ↦
      let (same, distinct, new) =
        unique_from_kept (x ∷ seen) xs (omega (arith, rw (e, length) at h)) in
      (
        rw (e, unique_from) (ap (λ r. x ∷ r) same),
        (All-map _ _ xs (not_first seen x) new, distinct),
        (e, All-map _ _ xs (not_later seen x) new),
      )
]

pub unique-Distinct :
    (ids : List ℕ) → length (unique ids) ≡ length ids → (unique ids ≡ ids) × Distinct (λ i. i) ids
unfolding unique
unique-Distinct ids h = let (same, distinct, _) = unique_from_kept [] ids h in (same, distinct)
