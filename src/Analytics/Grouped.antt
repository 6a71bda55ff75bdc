-- ===== src/Analytics/Grouped.antt =====
-- What is read off the groups is the number of the rows with a key.
use opsdesk.Base.{
  if◌then◌else◌, Bool-cases, ◌==◌, Eq, length, find_many, count, All, ℕ, suc, ◌≡◌, refl, sym, ap,
  subst, ◌∙◌, inl, inr, Bool, true, false, ◌&&◌, List, [], ◌∷◌, arith, nat_eq,
}
use opsdesk.Analytics.Groups.{count_in, group_by, written}
use opsdesk.Analytics.Trends.{total_of}

chosen :
    (b : Bool) (m n : ℕ)
    → (if b then suc m else n) ≡ (if b then suc (if b then m else n) else (if b then m else n))
chosen true m n = refl
chosen false m n = refl

module _ {K : Type 0} ⦃e : Eq K⦄ where
  pub beq_sym : (a b : K) → (a == b) ≡ (b == a)
  beq_sym a b = elim (Bool-cases (a == b)) [
    | inl h ↦ rw h (sym ((e.beq_iff b a).1 (sym ((e.beq_iff a b).0 h))))
    | inr h ↦ elim (Bool-cases (b == a)) [
      | inl k ↦ rw k ((e.beq_iff a b).1 (sym ((e.beq_iff b a).0 k)))
      | inr k ↦ rw (h, k) refl
    ]
  ]

  abbrev Absent : K → List (K × ℕ) → Type 0
  Absent k gs = All (λ g. (k == g.0) ≡ false) gs

  abbrev Distinct : List (K × ℕ) → Type 0
  Distinct [] = Unit
  Distinct (g ∷ gs) = Absent g.0 gs × Distinct gs

  written_cong :
      (gs : List (K × ℕ)) (f h : K → ℕ) (k : K) → f k ≡ h k → written f gs k ≡ written h gs k
  unfolding written
  written_cong [] f h k eq = eq
  written_cong (g ∷ gs) f h k eq = written_cong gs _ _ k (ap (λ z. if k == g.0 then g.1 else z) eq)

  written-Absent : (gs : List (K × ℕ)) (f : K → ℕ) (k : K) → Absent k gs → written f gs k ≡ f k
  unfolding written
  written-Absent [] f k a = refl
  written-Absent (g ∷ gs) f k a = written-Absent gs _ k a.1 ∙ rw a.0 refl

  -- the entry of a key that no later group has
  written_last :
      (gs : List (K × ℕ)) (f : K → ℕ) (k j : K) (n : ℕ)
      → Absent k gs
      → written (λ i. if i == k then n else f i) gs j ≡ (if j == k then n else written f gs j)
  written_last gs f k j n a = elim (Bool-cases (j == k)) [
    | inl eq ↦ rw eq (
        written-Absent gs (λ i. if i == k then n else f i) j
          (subst (λ i. Absent i gs) (sym ((e.beq_iff j k).0 eq)) a)
        ∙ rw eq refl)
    | inr ne ↦ rw ne (written_cong gs (λ i. if i == k then n else f i) f j (rw ne refl))
  ]

  count_in-Absent :
      (j k : K) (gs : List (K × ℕ)) → (j == k) ≡ false → Absent j gs → Absent j (count_in k gs)
  unfolding count_in
  count_in-Absent j k [] h a = (h, tt)
  count_in-Absent j k (g ∷ gs) h a = elim (Bool-cases (g.0 == k)) [
    | inl eq ↦ rw eq a
    | inr ne ↦ rw ne (a.0, count_in-Absent j k gs h a.1)
  ]

  count_in-Distinct : (k : K) (gs : List (K × ℕ)) → Distinct gs → Distinct (count_in k gs)
  unfolding count_in
  count_in-Distinct k [] d = (tt, tt)
  count_in-Distinct k (g ∷ gs) d = elim (Bool-cases (g.0 == k)) [
    | inl eq ↦ rw eq d
    | inr ne ↦ rw ne (count_in-Absent g.0 k gs ne d.0, count_in-Distinct k gs d.1)
  ]

  written-count_in :
      (gs : List (K × ℕ)) (f : K → ℕ) (k j : K)
      → f k ≡ 0
      → Distinct gs
      → written f (count_in k gs) j ≡ (if j == k then suc (written f gs j) else written f gs j)
  unfolding written count_in
  written-count_in [] f k j z d = elim (Bool-cases (j == k)) [
    | inl eq ↦ rw eq (ap suc (sym (ap f ((e.beq_iff j k).0 eq) ∙ z)))
    | inr ne ↦ rw ne refl
  ]
  written-count_in (g ∷ gs) f k j z d = elim (Bool-cases (g.0 == k)) [
    | inl eq ↦
        rw
          (
            count_in,
            eq,
            written_last gs f g.0 j (suc g.1) d.0,
            written_last gs f g.0 j g.1 d.0,
            (e.beq_iff g.0 k).0 eq,
          )
          (chosen (j == k) g.1 (written f gs j))
    | inr ne ↦ rw (count_in, ne) (written-count_in gs _ k j (rw (beq_sym k g.0, ne) z) d.1)
  ]

module _ {A K : Type 0} ⦃e : Eq K⦄ (key : A → K) where
  group_by-Distinct : (xs : List A) → Distinct (group_by key xs)
  unfolding group_by
  group_by-Distinct [] = tt
  group_by-Distinct (x ∷ xs) = count_in-Distinct (key x) (group_by key xs) (group_by-Distinct xs)

  pub written-group_by :
      (xs : List A) (j : K) → written (λ k. 0) (group_by key xs) j ≡ count (λ x. key x == j) xs
  unfolding group_by written count
  written-group_by [] j = refl
  written-group_by (x ∷ xs) j =
      written-count_in (group_by key xs) (λ k. 0) (key x) j refl (group_by-Distinct xs)
      ∙ rw (beq_sym j (key x), written-group_by xs j) refl

  total_of-count_in : (k : K) (gs : List (K × ℕ)) → total_of (count_in k gs) ≡ suc (total_of gs)
  unfolding count_in
  total_of-count_in k [] = refl
  total_of-count_in k (g ∷ gs) = ground (arith, total_of-count_in k gs)

  pub total_of-group_by : (xs : List A) → total_of (group_by key xs) ≡ length xs
  unfolding group_by
  total_of-group_by [] = refl
  total_of-group_by (x ∷ xs) =
      total_of-count_in (key x) (group_by key xs) ∙ ap suc (total_of-group_by xs)

pub count-find_many :
    {A : Type 0} (p q : A → Bool) (xs : List A)
    → count p (find_many q xs) ≡ count (λ x. q x && p x) xs
unfolding count find_many
count-find_many p q [] = refl
count-find_many p q (x ∷ xs) = ground (arith, count-find_many p q xs)

pub group_by-find_many :
    {A K : Type 0} ⦃e : Eq K⦄ (key : A → K) (q : A → Bool) (xs : List A) (j : K)
    → written (λ k. 0) (group_by key (find_many q xs)) j ≡ count (λ x. q x && (key x == j)) xs
group_by-find_many key q xs j =
    written-group_by key (find_many q xs) j ∙ count-find_many (λ x. key x == j) q xs
