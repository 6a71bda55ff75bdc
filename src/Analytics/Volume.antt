-- ===== src/Analytics/Volume.antt =====
-- The days of the overview make up its period.
use opsdesk.Base.{
  if◌then◌else◌, Bool-cases, ◌==◌, length, find_many, count, All, ℕ, zero, suc, ◌+◌, ◌-◌, ◌*◌, ◌≤◌,
  ◌<◌, ◌≡◌, refl, sym, ap, ◌∙◌, inl, inr, Bool, true, ◌&&◌, Option, none, some, List, [], ◌∷◌,
  arith, nat_eq,
}
use opsdesk.Schema.{Ticket}
use opsdesk.State.{State}
use opsdesk.Analytics.Groups.{group_by, written}
use opsdesk.Analytics.Grouped.{written-group_by, total_of-group_by}
use opsdesk.Analytics.{Query, created_trend, get_overview, resolved_trend, ticket_figures}
use opsdesk.Analytics.Trends.{
  AnalyticsRange, DailyVolume, build_daily_volume, day_ms, day_of, get_created_trend,
  get_resolved_trend, get_window, is_resolved_within, is_within, range_days, resolved_day, total_of,
  volumes_from,
}

abbrev pub sum_of : (DailyVolume → ℕ) → List DailyVolume → ℕ
sum_of f [] = 0
sum_of f (v ∷ vs) = f v + sum_of f vs

-- the sum over a number of days from one on
abbrev sum_days : (ℕ → ℕ) → ℕ → ℕ → ℕ
sum_days f d zero = 0
sum_days f d (suc n) = f d + sum_days f (suc d) n

sum_of-volumes_from :
    (c r : ℕ → ℕ) (d n : ℕ)
    → (sum_of (λ v. v.created) (volumes_from c r d n) ≡ sum_days c d n)
      × (sum_of (λ v. v.resolved) (volumes_from c r d n) ≡ sum_days r d n)
      × (length (volumes_from c r d n) ≡ n)
sum_of-volumes_from c r d zero = (refl, refl, refl)
sum_of-volumes_from c r d (suc n) =
    let rest = sum_of-volumes_from c r (suc d) n in
    (ap (λ s. c d + s) rest.0, ap (λ s. r d + s) rest.1, ap suc rest.2)

sum_days_cong : (f g : ℕ → ℕ) → ((i : ℕ) → f i ≡ g i) → (d n : ℕ) → sum_days f d n ≡ sum_days g d n
sum_days_cong f g h d zero = refl
sum_days_cong f g h d (suc n) = rw (h d, sum_days_cong f g h (suc d) n) refl

sum_days-add :
    (f g : ℕ → ℕ) (d n : ℕ) → sum_days (λ i. f i + g i) d n ≡ sum_days f d n + sum_days g d n
sum_days-add f g d zero = omega arith
sum_days-add f g d (suc n) = omega (arith, sum_days-add f g (suc d) n)

sum_days-zero : (d n : ℕ) → sum_days (λ i. 0) d n ≡ 0
sum_days-zero d zero = refl
sum_days-zero d (suc n) = omega (arith, sum_days-zero (suc d) n)

abbrev one_at : ℕ → ℕ → ℕ
one_at k i = if k == i then 1 else 0

sum_days-one_at-before : (k d n : ℕ) → k < d → sum_days (one_at k) d n ≡ 0
sum_days-one_at-before k d zero h = refl
sum_days-one_at-before k d (suc n) h = ground (arith, sum_days-one_at-before k (suc d) n)

-- a day of the period is met once
sum_days-one_at : (k d n : ℕ) → d ≤ k → k < d + n → sum_days (one_at k) d n ≡ 1
sum_days-one_at k d zero h l = omega (arith, h, l)
sum_days-one_at k d (suc n) h l =
    ground (arith, sum_days-one_at k (suc d) n, sum_days-one_at-before k (suc d) n)

abbrev IsBetween : ℕ → ℕ → ℕ → Type 0
IsBetween d n k = (d ≤ k) × (k < d + n)

sum_days-count :
    {A : Type 0} (key : A → ℕ) (d n : ℕ) (xs : List A)
    → All (λ x. IsBetween d n (key x)) xs
    → sum_days (λ i. count (λ x. key x == i) xs) d n ≡ length xs
unfolding count
sum_days-count key d n [] a = sum_days-zero d n
sum_days-count key d n (x ∷ xs) a =
    sum_days_cong _ (λ i. one_at (key x) i + count (λ y. key y == i) xs) (λ i. ground arith) d n
    ∙ sum_days-add (one_at (key x)) (λ i. count (λ y. key y == i) xs) d n
    ∙ rw (sum_days-one_at (key x) d n a.0.0 a.0.1, sum_days-count key d n xs a.1) (omega arith)

-- the days of a period count the rows whose day is in it
sum_days-group_by :
    {A : Type 0} (key : A → ℕ) (d n : ℕ) (xs : List A)
    → All (λ x. IsBetween d n (key x)) xs
    → sum_days (written (λ k. 0) (group_by key xs)) d n ≡ total_of (group_by key xs)
sum_days-group_by key d n xs a =
    sum_days_cong _ _ (written-group_by key xs) d n
    ∙ sum_days-count key d n xs a
    ∙ sym (total_of-group_by key xs)

All-found :
    {A : Type 0} (P : A → Type 0) (q : A → Bool) (xs : List A)
    → ((x : A) → q x ≡ true → P x)
    → All P (find_many q xs)
unfolding find_many
All-found P q [] h = tt
All-found P q (x ∷ xs) h = elim (Bool-cases (q x)) [
  | inl e ↦ rw e (h x e, All-found P q xs h)
  | inr e ↦ rw e (All-found P q xs h)
]

-- an instant of the window lies in one of its days
within_day :
    (now n t : ℕ)
    → 0 < n
    → n ≤ day_of now
    → is_within ((day_of now - (n - 1)) * day_ms) now t ≡ true
    → IsBetween (day_of ((day_of now - (n - 1)) * day_ms)) n (day_of t)
within_day now n t some_days early h = (ground (arith, h), ground (arith, h))

-- a resolved ticket of the window
resolved_day_within :
    (now n : ℕ) (t : Option ℕ)
    → 0 < n
    → n ≤ day_of now
    → is_resolved_within ((day_of now - (n - 1)) * day_ms) now t ≡ true
    → IsBetween (day_of ((day_of now - (n - 1)) * day_ms)) n (resolved_day t)
resolved_day_within now n none some_days early h = ground (arith, h)
resolved_day_within now n (some t) some_days early h = within_day now n t some_days early h

and_right : (a b : Bool) → a && b ≡ true → b ≡ true
and_right a b h = ground (arith, h)

range_days_pos : (range : AnalyticsRange) → 0 < range_days range
range_days_pos range = ground arith

-- The overview of a period has one entry for each day of the period, and the tickets created on
-- these days are together the tickets created in the period, the resolved ones likewise, whatever
-- other requests write between the queries, if the clock shows at least the number of the period's
-- days after 1970.
pub overview_volume :
    (at : Query → State) (org : ℕ) (range : AnalyticsRange) (now : ℕ)
    → range_days range ≤ day_of now
    → let o = get_overview at org range now in
      (length o.ticket_volume ≡ range_days range)
      × (sum_of (λ v. v.created) o.ticket_volume ≡ o.tickets.created_in_period)
      × (sum_of (λ v. v.resolved) o.ticket_volume ≡ o.tickets.resolved_in_period)
unfolding get_overview get_window build_daily_volume ticket_figures get_created_trend
    get_resolved_trend
overview_volume at org range now early =
    let n = range_days range in
    let from = (day_of now - (n - 1)) * day_ms in
    let some_days = range_days_pos range in
    let c = λ (t : Ticket). (t.organization_id == org) && is_within from now t.created_at in
    let r =
      λ (t : Ticket). (t.organization_id == org) && is_resolved_within from now t.resolved_at in
    let created =
      sum_days-group_by (λ (t : Ticket). day_of t.created_at) (day_of from) n
        (find_many c (at created_trend).tickets)
        (All-found _ c (at created_trend).tickets
          (λ t h. within_day now n t.created_at some_days early (and_right _ _ h))) in
    let done =
      sum_days-group_by (λ (t : Ticket). resolved_day t.resolved_at) (day_of from) n
        (find_many r (at resolved_trend).tickets)
        (All-found _ r (at resolved_trend).tickets
          (λ t h. resolved_day_within now n t.resolved_at some_days early (and_right _ _ h))) in
    let sums =
      sum_of-volumes_from (written (λ k. 0) (get_created_trend org from now (at created_trend)))
        (written (λ k. 0) (get_resolved_trend org from now (at resolved_trend))) (day_of from) n in
    (sums.2, sums.0 ∙ created, sums.1 ∙ done)
