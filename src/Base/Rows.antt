-- ===== src/Base/Rows.antt =====
-- A table is the list of its rows, and a `where` clause is a test on a row.
use Prim.Native.Nat.{ℕ, zero, suc, ◌<◌}
use mathlib.Core.Path.{◌≡◌, refl, subst}
use mathlib.Core.Logic.{inl, inr}
use mathlib.Core.Bool.{Bool, true, false}
use mathlib.Core.Option
use mathlib.Core.Option.{Option, none, some, some-injective}
use mathlib.Core.List.{List, [], ◌∷◌}
use native.Mathlib.Omega.{arith}
use opsdesk.Base.Tests.{if◌then◌else◌, Bool-cases}

module _ {A : Type 0} where
  abbrev pub length : List A → ℕ
  length [] = 0
  length (x ∷ xs) = suc (length xs)

  abbrev pub take : ℕ → List A → List A
  take zero xs = []
  take (suc n) [] = []
  take (suc n) (x ∷ xs) = x ∷ take n xs

  abbrev pub drop : ℕ → List A → List A
  drop zero xs = xs
  drop (suc n) [] = []
  drop (suc n) (x ∷ xs) = drop n xs

  -- `findFirst` and `findUnique`
  unfoldable pub find_first : (A → Bool) → List A → Option A
  find_first p [] = none
  find_first p (x ∷ xs) = if p x then some x else find_first p xs

  -- `findMany`
  unfoldable pub find_many : (A → Bool) → List A → List A
  find_many p [] = []
  find_many p (x ∷ xs) = let rest = find_many p xs in if p x then x ∷ rest else rest

  unfoldable pub count : (A → Bool) → List A → ℕ
  count p [] = 0
  count p (x ∷ xs) = let rest = count p xs in if p x then suc rest else rest

  -- the rows after `updateMany`; its `count` is `count` of the test before
  unfoldable pub update_many : (A → Bool) → (A → A) → List A → List A
  update_many p f [] = []
  update_many p f (x ∷ xs) = (if p x then f x else x) ∷ update_many p f xs

  -- the rows after `deleteMany`
  unfoldable pub delete_many : (A → Bool) → List A → List A
  delete_many p [] = []
  delete_many p (x ∷ xs) = let rest = delete_many p xs in if p x then rest else x ∷ rest

  abbrev pub any : (A → Bool) → List A → Bool
  any p [] = false
  any p (x ∷ xs) = if p x then true else any p xs

  abbrev pub All : (A → Type 0) → List A → Type 0
  All P [] = Unit
  All P (x ∷ xs) = P x × All P xs

-- Lemmas on the queries.
module _ {A : Type 0} where
  pub find_first_holds :
      (p : A → Bool) (xs : List A) {x : A} → find_first p xs ≡ some x → p x ≡ true
  unfolding find_first
  find_first_holds p [] h = ground arith
  find_first_holds p (y ∷ xs) h = elim (Bool-cases (p y)) [
    | inl e ↦ subst (λ z. p z ≡ true) (some-injective _ _ (rw e at h)) e
    | inr e ↦ find_first_holds p xs (rw e at h)
  ]

  pub All-find_first :
      (P : A → Type 0) (p : A → Bool) (xs : List A) {x : A}
      → All P xs
      → find_first p xs ≡ some x
      → P x
  unfolding find_first
  All-find_first P p [] a h = ground arith
  All-find_first P p (y ∷ xs) a h = elim (Bool-cases (p y)) [
    | inl e ↦ subst P (some-injective _ _ (rw e at h)) a.0
    | inr e ↦ All-find_first P p xs a.1 (rw e at h)
  ]

  -- a row invariant survives an update that keeps it on the rows that the update selects
  pub All-update_many :
      (P : A → Type 0) (p : A → Bool) (f : A → A) (xs : List A)
      → ((x : A) → p x ≡ true → P x → P (f x))
      → All P xs
      → All P (update_many p f xs)
  unfolding update_many
  All-update_many P p f [] keep a = tt
  All-update_many P p f (x ∷ xs) keep a = elim (Bool-cases (p x)) [
    | inl e ↦ rw e (keep x e a.0, All-update_many P p f xs keep a.1)
    | inr e ↦ rw e (a.0, All-update_many P p f xs keep a.1)
  ]

  pub All-delete_many :
      (P : A → Type 0) (p : A → Bool) (xs : List A) → All P xs → All P (delete_many p xs)
  unfolding delete_many
  All-delete_many P p [] a = tt
  All-delete_many P p (x ∷ xs) a = elim (Bool-cases (p x)) [
    | inl e ↦ rw e (All-delete_many P p xs a.1)
    | inr e ↦ rw e (a.0, All-delete_many P p xs a.1)
  ]

  -- a row looked up after an update that keeps the key is the updated row
  pub find_first-update_many :
      (q p : A → Bool) (f : A → A) (xs : List A)
      → ((x : A) → p x ≡ true → q (f x) ≡ q x)
      → find_first q (update_many p f xs)
        ≡ Option.map (λ x. if p x then f x else x) (find_first q xs)
  unfolding find_first update_many
  find_first-update_many q p f [] keep = refl
  find_first-update_many q p f (x ∷ xs) keep =
      ground (arith, keep x, find_first-update_many q p f xs keep)

  -- rows that fail a test before and after the update are the same rows after it
  pub find_many-update_many :
      (q p : A → Bool) (f : A → A) (xs : List A)
      → All (λ x. p x ≡ true → (q x ≡ false) × (q (f x) ≡ false)) xs
      → find_many q (update_many p f xs) ≡ find_many q xs
  unfolding find_many update_many
  find_many-update_many q p f [] keep = refl
  find_many-update_many q p f (x ∷ xs) keep =
      ground (arith, keep.0, find_many-update_many q p f xs keep.1)

  pub count-update_many :
      (q p : A → Bool) (f : A → A) (xs : List A)
      → All (λ x. p x ≡ true → q (f x) ≡ q x) xs
      → count q (update_many p f xs) ≡ count q xs
  unfolding count update_many
  count-update_many q p f [] keep = refl
  count-update_many q p f (x ∷ xs) keep = ground (arith, keep.0, count-update_many q p f xs keep.1)

  pub count_pos : (p : A → Bool) (xs : List A) {x : A} → find_first p xs ≡ some x → 0 < count p xs
  unfolding find_first count
  count_pos p [] h = ground arith
  count_pos p (y ∷ xs) {x} h = ground (arith, count_pos p xs {x = x})

  pub All-intro : (P : A → Type 0) (xs : List A) → ((x : A) → P x) → All P xs
  All-intro P [] f = tt
  All-intro P (x ∷ xs) f = (f x, All-intro P xs f)

  pub All-map : (P Q : A → Type 0) (xs : List A) → ((x : A) → P x → Q x) → All P xs → All Q xs
  All-map P Q [] f a = tt
  All-map P Q (x ∷ xs) f a = (f x a.0, All-map P Q xs f a.1)
