-- ===== src/Base/Deletions.antt =====
-- More on queries and updates, row by row.
use Prim.Native.Nat.{◌≤◌, ◌<◌}
use mathlib.Core.Path.{◌≡◌, refl, subst, sym, ap}
use mathlib.Core.Logic.{◌↔◌, inl, inr}
use mathlib.Core.Bool.{Bool, true, false}
use mathlib.Core.Option.{some, some-injective}
use mathlib.Core.List.{List, [], ◌∷◌}
use native.Mathlib.Omega.{arith}
use opsdesk.Base.Tests.{if◌then◌else◌, Bool-cases}
use opsdesk.Base.Rows.{
  find_first, find_many, count, update_many, delete_many, any, All, All-map, length,
}

pub All-both :
    {A : Type 0} (P Q R : A → Type 0) (xs : List A)
    → ((x : A) → P x → Q x → R x)
    → All P xs
    → All Q xs
    → All R xs
All-both P Q R [] f a b = tt
All-both P Q R (x ∷ xs) f a b = (f x a.0 b.0, All-both P Q R xs f a.1 b.1)

module _ {A : Type 0} where
  -- a found row that is not deleted is found after a deletion
  pub find_first-delete_many :
      (q p : A → Bool) (xs : List A) {a : A}
      → p a ≡ false
      → find_first q xs ≡ some a
      → find_first q (delete_many p xs) ≡ some a
  unfolding find_first delete_many
  find_first-delete_many q p [] kept h = h
  find_first-delete_many q p (x ∷ xs) {a} kept h = elim (Bool-cases (q x)) [
    | inl e ↦
        let same : x ≡ a = some-injective _ _ (rw e at h) in
        let stays : p x ≡ false = subst (λ y. p y ≡ false) (sym same) kept in
        rw stays (rw e (ap some same))
    | inr e ↦ elim (Bool-cases (p x)) [
      | inl d ↦ rw d (find_first-delete_many q p xs kept (rw e at h))
      | inr d ↦ rw d (rw e (find_first-delete_many q p xs kept (rw e at h)))
    ]
  ]

  pub delete_many-All : (p : A → Bool) (xs : List A) → All (λ x. p x ≡ false) (delete_many p xs)
  unfolding delete_many
  delete_many-All p [] = tt
  delete_many-All p (x ∷ xs) = elim (Bool-cases (p x)) [
    | inl e ↦ rw e (delete_many-All p xs)
    | inr e ↦ rw e (e, delete_many-All p xs)
  ]

  pub any_counted : (p : A → Bool) (xs : List A) → (any p xs ≡ true) ↔ (0 < count p xs)
  unfolding count
  any_counted p [] = ground arith
  any_counted p (x ∷ xs) = ground (arith, (any_counted p xs).0, (any_counted p xs).1)

  count-find_many_cons :
      (p q : A → Bool) (y : A) (ys : List A)
      → count q (find_many p ys) ≤ count q (find_many p (y ∷ ys))
  unfolding count find_many
  count-find_many_cons p q y ys = ground arith

  count-find_many_head :
      (p q : A → Bool) (y : A) (ys : List A)
      → p y ≡ true
      → q y ≡ true
      → 0 < count q (find_many p (y ∷ ys))
  unfolding count find_many
  count-find_many_head p q y ys h k = ground arith

  -- a row that passes a test is related to one of the rows that pass it, if it is to itself
  pub covers_itself :
      (p : A → Bool) (related : A → A → Bool) (xs : List A)
      → All (λ x. p x ≡ true → related x x ≡ true) xs
      → All (λ x. p x ≡ true → 0 < count (λ c. related c x) (find_many p xs)) xs
  covers_itself p related [] self = tt
  covers_itself p related (y ∷ ys) self = (
    λ h. count-find_many_head p (λ c. related c y) y ys h (self.0 h),
    All-map (λ x. p x ≡ true → 0 < count (λ c. related c x) (find_many p ys))
        (λ x. p x ≡ true → 0 < count (λ c. related c x) (find_many p (y ∷ ys))) ys
        (λ x h b. omega (arith, h b, count-find_many_cons p (λ c. related c x) y ys))
        (covers_itself p related ys self.1),
  )

  pub length-find_many : (p : A → Bool) (xs : List A) → length (find_many p xs) ≡ count p xs
  unfolding find_many count
  length-find_many p [] = refl
  length-find_many p (x ∷ xs) = ground (arith, length-find_many p xs)

  -- what holds of every row after an update
  pub update_many-All :
      (P : A → Type 0) (p : A → Bool) (f : A → A) (xs : List A)
      → ((x : A) → P (if p x then f x else x))
      → All P (update_many p f xs)
  unfolding update_many
  update_many-All P p f [] h = tt
  update_many-All P p f (x ∷ xs) h = (h x, update_many-All P p f xs h)
