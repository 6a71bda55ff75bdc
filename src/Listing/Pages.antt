-- ===== src/Listing/Pages.antt =====
-- Whoever follows `hasNextPage` from the first page gets every row once, in order, and comes to an
-- end.
use native.Mathlib.Nat.{le-div_iff_mul-le}
use opsdesk.Base.{
  ltb, Bool-cases, ◌==◌, length, take, drop, count, ℕ, zero, suc, ◌+◌, ◌-◌, ◌*◌, ◌≤◌, ◌<◌, ◌≡◌,
  refl, sym, ap, ◌∙◌, ◌↔◌, inl, inr, Bool, true, false, Option, none, some, List, [], ◌∷◌, ◌++◌,
  arith, nat_eq,
}
use opsdesk.Listing.{Page, pages_of, ceil_div, paginate}
use opsdesk.Listing.Order.{
  Asymmetric, InOrder, count-order_by, length-order_by, order_by, order_by-InOrder,
}

-- The pages from `page` on, while the answers say that there is a next one; `none` if the fuel runs
-- out first.
pub follow : {A : Type 0} → ℕ → (ℕ → Page A) → ℕ → Option (List A)
follow zero fetch page = none
follow (suc fuel) fetch page = elim (fetch page).pagination.has_next_page [
  | false ↦ some (fetch page).rows
  | true ↦ elim (follow fuel fetch (suc page)) [
    | none ↦ none
    | some rest ↦ some ((fetch page).rows ++ rest)
  ]
]

module _ (p limit total : ℕ) (h : 0 < limit) where
  suc_mul : suc p * limit ≡ p * limit + limit
  suc_mul = omega arith

  more_pages : p < ceil_div total limit → p * limit < total
  more_pages lt =
      let d : suc p * limit ≤ total + limit - 1 =
        (le-div_iff_mul-le {k = limit} {x = suc p} {y = total + limit - 1} h).0 (omega arith) in
      omega (arith, suc_mul, d)

  more_rows : p * limit < total → p < ceil_div total limit
  more_rows lt =
      let d : suc p ≤ ceil_div total limit =
        (le-div_iff_mul-le {k = limit} {x = suc p} {y = total + limit - 1} h).1
          (omega (arith, suc_mul)) in
      omega (arith, d)

  -- there is a next page exactly when rows remain
  has_next_iff : (ltb p (pages_of total limit) ≡ true) ↔ (p * limit < total)
  has_next_iff = (
    λ e. elim (Bool-cases (total == 0)) [
      | inl z ↦ absurd (ground (arith, rw z at e))
      | inr z ↦ more_pages (ground (arith, rw z at e))
    ],
    λ lt. elim (Bool-cases (total == 0)) [
      | inl z ↦ absurd (ground (arith, z, lt))
      | inr z ↦ rw z (ground (arith, more_rows lt))
    ],
  )

add_zero_left : (m : ℕ) → 0 + m ≡ m
add_zero_left m = omega arith

zero_mul : (n : ℕ) → 0 * n ≡ 0
zero_mul n = omega arith

pred : (p : ℕ) → suc p - 1 ≡ p
pred p = omega arith

suc_add : (n m : ℕ) → suc n + m ≡ suc (n + m)
suc_add n m = omega arith

module _ {A : Type 0} where
  drop_nil : (n : ℕ) → drop {A = A} n [] ≡ []
  drop_nil zero = refl
  drop_nil (suc n) = refl

  drop-drop : (m n : ℕ) (xs : List A) → drop m (drop n xs) ≡ drop (n + m) xs
  drop-drop m zero xs = rw (add_zero_left m) refl
  drop-drop m (suc n) [] = drop_nil m ∙ sym (drop_nil (suc n + m))
  drop-drop m (suc n) (x ∷ xs) = rw (suc_add n m) (drop-drop m n xs)

  take-append-drop : (n : ℕ) (xs : List A) → take n xs ++ drop n xs ≡ xs
  take-append-drop zero xs = refl
  take-append-drop (suc n) [] = refl
  take-append-drop (suc n) (x ∷ xs) = ap (◌∷◌ x) (take-append-drop n xs)

  pub take_all : (n : ℕ) (xs : List A) → length xs ≤ n → take n xs ≡ xs
  take_all zero [] h = refl
  take_all zero (x ∷ xs) h = absurd (omega arith)
  take_all (suc n) [] h = refl
  take_all (suc n) (x ∷ xs) h = ap (◌∷◌ x) (take_all n xs (omega arith))

  length-drop : (n : ℕ) (xs : List A) → length (drop n xs) ≡ length xs - n
  length-drop zero xs = omega arith
  length-drop (suc n) [] = omega arith
  length-drop (suc n) (x ∷ xs) = omega (arith, length-drop n xs)

module _ {A : Type 0} (limit : ℕ) (h : 0 < limit) (xs : List A) where
  fetch : ℕ → Page A
  unfolding paginate
  fetch page = paginate page limit xs

  rows_at : (p : ℕ) → (fetch (suc p)).rows ≡ take limit (drop (p * limit) xs)
  unfolding fetch paginate
  rows_at p = rw (pred p) refl

  next_at :
      (p : ℕ) → ((fetch (suc p)).pagination.has_next_page ≡ true) ↔ (suc p * limit < length xs)
  unfolding fetch paginate
  next_at p = has_next_iff (suc p) limit (length xs) h

  rest_after : (p : ℕ) → drop limit (drop (p * limit) xs) ≡ drop (suc p * limit) xs
  rest_after p = drop-drop limit (p * limit) xs ∙ rw (suc_mul p limit (length xs) h) refl

  follow_from :
      (fuel p : ℕ)
      → length xs - p * limit < fuel
      → follow fuel fetch (suc p) ≡ some (drop (p * limit) xs)
  unfolding follow
  follow_from zero p m = absurd (omega arith)
  follow_from (suc fuel) p m = elim (Bool-cases ((fetch (suc p)).pagination.has_next_page)) [
    | inr last ↦
        let few : length (drop (p * limit) xs) ≤ limit =
          ground (
            arith,
            length-drop (p * limit) xs,
            suc_mul p limit (length xs) h,
            (next_at p).1,
            last,
          ) in
        rw (follow, last) (ap some (rows_at p ∙ take_all limit (drop (p * limit) xs) few))
    | inl more ↦
        let many : suc p * limit < length xs = (next_at p).0 more in
        let later : follow fuel fetch (suc (suc p)) ≡ some (drop (suc p * limit) xs) =
          follow_from fuel (suc p) (omega (arith, suc_mul p limit (length xs) h, many)) in
        rw (follow, more)
          (rw later (
            ap some (
              ap (λ ys. ys ++ drop (suc p * limit) xs) (rows_at p)
              ∙ ap (λ ys. take limit (drop (p * limit) xs) ++ ys) (sym (rest_after p))
              ∙ take-append-drop limit (drop (p * limit) xs))))
  ]

  pub follow_all :
      (fuel : ℕ) → length xs < fuel → follow fuel (λ page. paginate page limit xs) 1 ≡ some xs
  unfolding fetch
  follow_all fuel m = follow_from fuel 0 (omega arith) ∙ rw (zero_mul limit) refl

-- What a walk over a paged list yields: the rows that match, each as often as they are there, in
-- the order of the list.
pub record Walked {A : Type 0} (before : A → A → Bool) (matching : List A) (found : Option (List A))
    : Type 0 where
  pub rows : List A
  pub found_rows : found ≡ some rows
  pub in_order : InOrder before rows
  pub complete : (q : A → Bool) → count q rows ≡ count q matching

pub follow-Walked :
    {A : Type 0} (before : A → A → Bool) (matching : List A) (limit fuel : ℕ)
    → Asymmetric before
    → 0 < limit
    → length matching < fuel
    → Walked before matching
        (follow fuel (λ page. paginate page limit (order_by before matching)) 1)
follow-Walked before matching limit fuel asym h enough =
    let ordered = order_by before matching in
    record {
      rows = ordered;
      found_rows = follow_all limit h ordered fuel (rw (length-order_by before matching) enough);
      in_order = order_by-InOrder before asym matching;
      complete = λ q. count-order_by before q matching;
    }
