-- ===== src/Analytics/Groups.antt =====
-- `groupBy` with `_count`, and what a loop over the groups writes.
use opsdesk.Base.{
  if◌then◌else◌, ◌==◌, Eq, ℕ, suc, ◌≡◌, refl, ap, ◌↔◌, true, ◌&&◌, List, [], ◌∷◌, arith, nat_eq,
}

module _ {K : Type 0} ⦃e : Eq K⦄ where
  unfoldable pub count_in : K → List (K × ℕ) → List (K × ℕ)
  count_in k [] = (k, 1) ∷ []
  count_in k (g ∷ gs) =
      let rest = count_in k gs in if g.0 == k then (g.0, suc g.1) ∷ gs else g ∷ rest

module _ {A K : Type 0} ⦃e : Eq K⦄ where
  -- a group for each key that a row has, with the number of its rows
  unfoldable pub group_by : (A → K) → List A → List (K × ℕ)
  group_by key [] = []
  group_by key (x ∷ xs) = count_in (key x) (group_by key xs)

module _ {K : Type 0} ⦃e : Eq K⦄ where
  -- `for (const group of groups) f[group.key] = group.count`, and the entries of `new Map(rows)`
  unfoldable pub written : (K → ℕ) → List (K × ℕ) → K → ℕ
  written f [] = f
  written f (g ∷ gs) = written (λ k. if k == g.0 then g.1 else f k) gs

module _ {A B : Type 0} (a : Eq A) (b : Eq B) where
  pub pair_beq_iff : (x y : A × B) → (a.beq x.0 y.0 && b.beq x.1 y.1 ≡ true) ↔ (x ≡ y)
  pair_beq_iff x y = (
    λ h i.
        ((a.beq_iff x.0 y.0).0 (ground (arith, h)) i, (b.beq_iff x.1 y.1).0 (ground (arith, h)) i),
    λ h. rw ((a.beq_iff x.0 y.0).1 (ap (λ z. z.0) h), (b.beq_iff x.1 y.1).1 (ap (λ z. z.1) h)) refl,
  )

instance abbrev pub pair_eq : {A B : Type 0} ⦃a : Eq A⦄ ⦃b : Eq B⦄ → Eq (A × B)
pair_eq ⦃a⦄ ⦃b⦄ = record { beq = λ x y. a.beq x.0 y.0 && b.beq x.1 y.1; beq_iff = pair_beq_iff a b }
