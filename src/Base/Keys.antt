-- ===== src/Base/Keys.antt =====
-- Counts of rows, and rows under a unique key.
use Prim.Native.Nat.{ℕ, suc, ◌≤◌}
use mathlib.Core.Path.{◌≡◌, refl, sym, ap, ◌∙◌}
use mathlib.Core.Logic.{◌≢◌, inl, inr}
use mathlib.Core.Bool.{Bool, true, false}
use mathlib.Core.Option.{none, some, some-injective}
use mathlib.Core.List.{List, [], ◌∷◌}
use native.Mathlib.Omega.{arith}
use opsdesk.Base.Tests.{if◌then◌else◌, Bool-cases, nat_beq, nat_beq_iff}
use opsdesk.Base.Rows.{
  find_first, count, update_many, All, All-map, All-find_first, All-update_many,
}

module _ {A : Type 0} where
  -- the key column is unique
  abbrev pub Distinct : (A → ℕ) → List A → Type 0
  Distinct key [] = Unit
  Distinct key (x ∷ xs) = All (λ y. key y ≢ key x) xs × Distinct key xs

  -- with a unique key, a row under the key of a found row is that row
  pub Distinct-find_first :
      (key : A → ℕ) (p : A → Bool) (xs : List A) {t : A}
      → Distinct key xs
      → find_first p xs ≡ some t
      → All (λ y. key y ≡ key t → y ≡ t) xs
  unfolding find_first
  Distinct-find_first key p [] d h = tt
  Distinct-find_first key p (x ∷ xs) {t} d h = elim (Bool-cases (p x)) [
    | inl e ↦
        let same : x ≡ t = some-injective _ _ (rw e at h) in
        (
          λ _. same,
          All-map (λ y. key y ≢ key x) (λ y. key y ≡ key t → y ≡ t) xs
              (λ y apart k. absurd (apart (k ∙ ap key (sym same)))) d.0,
        )
    | inr e ↦
        let there : find_first p xs ≡ some t = rw e at h in
        (
          λ k. absurd (All-find_first (λ y. key y ≢ key x) p xs d.0 there (sym k)),
          Distinct-find_first key p xs d.1 there,
        )
  ]

  pub update_many_none :
      (p : A → Bool) (f : A → A) (xs : List A) → All (λ y. p y ≡ false) xs → update_many p f xs ≡ xs
  unfolding update_many
  update_many_none p f [] a = refl
  update_many_none p f (x ∷ xs) a = ground (arith, a.0, update_many_none p f xs a.1)

  -- an update under one key takes at most one row from a count
  pub count-update_one :
      (key : A → ℕ) (q : A → Bool) (k : ℕ) (f : A → A) (xs : List A)
      → Distinct key xs
      → count q xs ≤ suc (count q (update_many (λ x. nat_beq (key x) k) f xs))
  unfolding count update_many
  count-update_one key q k f [] d = omega arith
  count-update_one key q k f (x ∷ xs) d = elim (Bool-cases (nat_beq (key x) k)) [
    | inl e ↦
        let at_key : key x ≡ k = (nat_beq_iff (key x) k).0 e in
        let rest : update_many (λ y. nat_beq (key y) k) f xs ≡ xs =
          update_many_none (λ y. nat_beq (key y) k) f xs
            (All-map (λ y. key y ≢ key x) (λ y. nat_beq (key y) k ≡ false) xs
              (λ y apart. ground (arith, apart, at_key)) d.0) in
        rw (e, rest) (ground arith)
    | inr e ↦ rw e (ground (arith, count-update_one key q k f xs d.1))
  ]

  pub count-le-count_update :
      (q p : A → Bool) (f : A → A) (xs : List A)
      → All (λ x. p x ≡ true → q x ≡ true → q (f x) ≡ true) xs
      → count q xs ≤ count q (update_many p f xs)
  unfolding count update_many
  count-le-count_update q p f [] keep = omega arith
  count-le-count_update q p f (x ∷ xs) keep =
      ground (arith, keep.0, count-le-count_update q p f xs keep.1)

  -- an update that keeps the key keeps it unique
  All-key :
      (key : A → ℕ) (p : A → Bool) (f : A → A) (k : ℕ) (xs : List A)
      → ((x : A) → key (f x) ≡ key x)
      → All (λ y. key y ≢ k) xs
      → All (λ y. key y ≢ k) (update_many p f xs)
  All-key key p f k xs keep =
      All-update_many (λ y. key y ≢ k) p f xs (λ x _ apart e. apart (sym (keep x) ∙ e))

  pub Distinct-update_many :
      (key : A → ℕ) (p : A → Bool) (f : A → A) (xs : List A)
      → ((x : A) → key (f x) ≡ key x)
      → Distinct key xs
      → Distinct key (update_many p f xs)
  unfolding update_many
  Distinct-update_many key p f [] keep d = tt
  Distinct-update_many key p f (x ∷ xs) keep d = elim (Bool-cases (p x)) [
    | inl e ↦
        rw (e, keep x)
          (All-key key p f (key x) xs keep d.0, Distinct-update_many key p f xs keep d.1)
    | inr e ↦ rw e (All-key key p f (key x) xs keep d.0, Distinct-update_many key p f xs keep d.1)
  ]

  pub count_none : (q : A → Bool) (xs : List A) → All (λ y. q y ≡ false) xs → count q xs ≡ 0
  unfolding count
  count_none q [] a = refl
  count_none q (x ∷ xs) a = ground (arith, a.0, count_none q xs a.1)

  -- where no row passes a test, none passes a stricter one
  pub count_absent :
      (p q : A → Bool) (xs : List A)
      → ((x : A) → q x ≡ true → p x ≡ true)
      → find_first p xs ≡ none
      → count q xs ≡ 0
  unfolding count find_first
  count_absent p q [] imp h = refl
  count_absent p q (x ∷ xs) imp h = ground (arith, imp x, count_absent p q xs imp)

  -- where a test selects one key, a stricter test counts one row or none
  pub count_unique :
      (key : A → ℕ) (p q : A → Bool) (xs : List A) {t : A}
      → ((x : A) → q x ≡ true → p x ≡ true)
      → ((x : A) → p x ≡ true → key x ≡ key t)
      → Distinct key xs
      → find_first p xs ≡ some t
      → count q xs ≡ (if q t then 1 else 0)
  unfolding count find_first
  count_unique key p q [] imp one d h = ground arith
  count_unique key p q (x ∷ xs) {t} imp one d h = elim (Bool-cases (p x)) [
    | inl e ↦
        let same : x ≡ t = some-injective _ _ (rw e at h) in
        let rest : count q xs ≡ 0 = count_none q xs (
          All-map (λ y. key y ≢ key x) (λ y. q y ≡ false) xs
            (λ y apart. ground (arith, apart, imp y, one y, one x e)) d.0) in
        rw (rest, same) (ground arith)
    | inr e ↦
        let off : q x ≡ false = ground (arith, imp x, e) in
        rw off (count_unique key p q xs {t = t} imp one d.1 (rw e at h))
  ]

  -- an update that selects no row changes none
  pub update_many_uncounted :
      (p : A → Bool) (f : A → A) (xs : List A) → count p xs ≡ 0 → update_many p f xs ≡ xs
  unfolding count update_many
  update_many_uncounted p f [] h = refl
  update_many_uncounted p f (x ∷ xs) h = elim (Bool-cases (p x)) [
    | inl e ↦ absurd (ground (arith, h, e))
    | inr e ↦ rw e (ap (λ ys. x ∷ ys) (update_many_uncounted p f xs (rw e at h)))
  ]
