-- ===== src/Listing/Order.antt =====
-- `orderBy`: rows in the order of a comparison, each as often as before.
use opsdesk.Base.{
  ltb, if◌then◌else◌, Bool-cases, ◌==◌, length, count, ℕ, suc, ◌≡◌, refl, ap, ◌∙◌, inl, inr, Bool,
  true, false, ◌&&◌, ◌||◌, List, [], ◌∷◌, arith, nat_eq,
}

module _ {A : Type 0} (before : A → A → Bool) where
  unfoldable pub insert_by : A → List A → List A
  insert_by x [] = x ∷ []
  insert_by x (y ∷ ys) = let rest = insert_by x ys in if before y x then y ∷ rest else x ∷ y ∷ ys

  unfoldable pub order_by : List A → List A
  order_by [] = []
  order_by (x ∷ xs) = insert_by x (order_by xs)

  -- no row comes before the one that it stands behind
  abbrev pub InOrder : List A → Type 0
  InOrder [] = Unit
  InOrder (x ∷ []) = Unit
  InOrder (x ∷ y ∷ ys) = (before y x ≡ false) × InOrder (y ∷ ys)

  abbrev pub Asymmetric : Type 0
  Asymmetric = (x y : A) → before x y ≡ true → before y x ≡ false

  insert_behind :
      (y x : A) (ys : List A)
      → before x y ≡ false
      → InOrder (y ∷ ys)
      → InOrder (insert_by x ys)
      → InOrder (y ∷ insert_by x ys)
  unfolding insert_by
  insert_behind y x [] h a b = (h, tt)
  insert_behind y x (z ∷ zs) h a b = elim (Bool-cases (before z x)) [
    | inl e ↦ rw e (a.0, rw e at b)
    | inr e ↦ rw e (h, rw e at b)
  ]

  insert_by-InOrder : Asymmetric → (x : A) (ys : List A) → InOrder ys → InOrder (insert_by x ys)
  unfolding insert_by
  insert_by-InOrder asym x [] a = tt
  insert_by-InOrder asym x (y ∷ []) a = elim (Bool-cases (before y x)) [
    | inl e ↦ rw e (asym y x e, tt)
    | inr e ↦ rw e (e, tt)
  ]
  insert_by-InOrder asym x (y ∷ z ∷ zs) a = elim (Bool-cases (before y x)) [
    | inl e ↦
        rw e (insert_behind y x (z ∷ zs) (asym y x e) a (insert_by-InOrder asym x (z ∷ zs) a.1))
    | inr e ↦ rw e (e, a)
  ]

  pub order_by-InOrder : Asymmetric → (xs : List A) → InOrder (order_by xs)
  unfolding order_by
  order_by-InOrder asym [] = tt
  order_by-InOrder asym (x ∷ xs) = insert_by-InOrder asym x (order_by xs) (order_by-InOrder asym xs)

  count-insert_by :
      (q : A → Bool) (x : A) (ys : List A) → count q (insert_by x ys) ≡ count q (x ∷ ys)
  unfolding insert_by count
  count-insert_by q x [] = refl
  count-insert_by q x (y ∷ ys) = ground (arith, count-insert_by q x ys)

  pub count-order_by : (q : A → Bool) (xs : List A) → count q (order_by xs) ≡ count q xs
  unfolding order_by count
  count-order_by q [] = refl
  count-order_by q (x ∷ xs) = ground (arith, count-insert_by q x (order_by xs), count-order_by q xs)

  length-insert_by : (x : A) (ys : List A) → length (insert_by x ys) ≡ suc (length ys)
  unfolding insert_by
  length-insert_by x [] = refl
  length-insert_by x (y ∷ ys) = ground (arith, length-insert_by x ys)

  pub length-order_by : (xs : List A) → length (order_by xs) ≡ length xs
  unfolding order_by
  length-order_by [] = refl
  length-order_by (x ∷ xs) = length-insert_by x (order_by xs) ∙ ap suc (length-order_by xs)

-- by a number, then by another, the greater ones first
abbrev pub descending : {A : Type 0} → (A → ℕ) → (A → ℕ) → A → A → Bool
descending f g x y = ltb (f y) (f x) || ((f x == f y) && ltb (g y) (g x))

pub descending-Asymmetric : {A : Type 0} (f g : A → ℕ) → Asymmetric (descending f g)
descending-Asymmetric f g x y h = ground (arith, h)

abbrev pub ascending : {A : Type 0} → (A → ℕ) → (A → ℕ) → A → A → Bool
ascending f g x y = descending f g y x
