-- ===== src/Deliveries/Stale.antt =====
-- The recovery job gives every delivery back that got stuck in SENDING.
use opsdesk.Base.{
  if◌then◌else◌, Bool-cases, ◌==◌, beq_refl, length, take, find_first, find_many, count,
  update_many, any, find_first-update_many, ok, ℕ, zero, suc, ◌+◌, ◌*◌, ◌≤◌, ◌<◌, ◌≡◌, refl, ap,
  ◌∙◌, inl, inr, Bool, true, false, ◌&&◌, ◌||◌, some, List, [], ◌∷◌, arith, nat_eq,
}
use mathlib.Core.Option.{some-injective}
use opsdesk.Enums.{email_delivery_status_eq, EmailDeliveryStatus}
use opsdesk.Schema.{EmailDelivery}
use opsdesk.State.{State}
use opsdesk.Deliveries.Worker.{as_pending}
use opsdesk.Deliveries.Recovery.{
  process_recovery, by_created, batch, is_stale, is_stale_row, reset_stale, reset_all, queue_all,
}
use opsdesk.Deliveries.{is_delivery}

abbrev recovered : EmailDelivery → EmailDelivery
recovered = as_pending "Recovered stale sending attempt"

-- a given-back delivery is not stale
recovered_once : (now : ℕ) (x : EmailDelivery) → is_stale now (recovered x) ≡ false
recovered_once now x = refl

reset_stale-deliveries :
    (now : ℕ) (d : EmailDelivery) (w : State)
    → (reset_stale now d w).1.deliveries
      ≡ update_many (is_stale_row d.id now) recovered w.deliveries
unfolding reset_stale
reset_stale-deliveries now d w =
    elim (Bool-cases (count (is_stale_row d.id now) w.deliveries == 1)) [
      | inl e ↦ rw e
      | inr e ↦ rw e
    ]

reset_stale_ok :
    (now : ℕ) (d : EmailDelivery) (w : State) → (n : ℕ) × ((reset_stale now d w).0 ≡ ok n)
unfolding reset_stale
reset_stale_ok now d w = elim (Bool-cases (count (is_stale_row d.id now) w.deliveries == 1)) [
  | inl e ↦ (1, rw e)
  | inr e ↦ (0, rw e)
]

-- two updates in turn are one, where the second leaves the rows of the first
update_twice :
    {A : Type 0} (p q r : A → Bool) (f : A → A) (xs : List A)
    → ((x : A) → q (f x) ≡ false)
    → ((x : A) → r x ≡ (p x || q x))
    → update_many q f (update_many p f xs) ≡ update_many r f xs
unfolding update_many
update_twice p q r f [] off same = refl
update_twice p q r f (x ∷ xs) off same =
    ground (arith, off x, same x, update_twice p q r f xs off same)

abbrev listed : ℕ → List EmailDelivery → EmailDelivery → Bool
listed now ds x = is_stale now x && any (λ d. x.id == d.id) ds

update_none :
    (f : EmailDelivery → EmailDelivery) (now : ℕ) (xs : List EmailDelivery)
    → xs ≡ update_many (listed now []) f xs
unfolding update_many
update_none f now [] = refl
update_none f now (x ∷ xs) = ground (arith, update_none f now xs)

listed_next :
    (now : ℕ) (d : EmailDelivery) (ds : List EmailDelivery) (x : EmailDelivery)
    → listed now (d ∷ ds) x ≡ (is_stale_row d.id now x || listed now ds x)
listed_next now d ds x = elim (Bool-cases (x.id == d.id)) [
  | inl e ↦ rw e (ground arith)
  | inr e ↦ rw e refl
]

reset_all-deliveries :
    (now : ℕ) (ds : List EmailDelivery) (w : State)
    → ((n : ℕ) × ((reset_all (λ s. s) now ds w).0 ≡ ok n))
      × ((reset_all (λ s. s) now ds w).1.deliveries
          ≡ update_many (listed now ds) recovered w.deliveries)
unfolding reset_all
reset_all-deliveries now [] w = ((0, refl), update_none recovered now w.deliveries)
reset_all-deliveries now (d ∷ ds) w =
    let (n, r) = reset_stale_ok now d w in
    let ((m, r'), q) = reset_all-deliveries now ds (reset_stale now d w).1 in
    (
      (n + m, rw (r, r')),
      rw (r, r')
          (q
            ∙ ap (λ xs. update_many (listed now ds) recovered xs) (reset_stale-deliveries now d w)
            ∙ update_twice (is_stale_row d.id now) (listed now ds) (listed now (d ∷ ds)) recovered
                w.deliveries (λ x. refl) (listed_next now d ds)),
    )

queue_all-deliveries :
    (accepts : ℕ → Bool) (ds : List EmailDelivery) (w : State)
    → ((c : ℕ × ℕ) × ((queue_all accepts ds w).0 ≡ ok c))
      × ((queue_all accepts ds w).1.deliveries ≡ w.deliveries)
unfolding queue_all
queue_all-deliveries accepts [] w = (((0, 0), refl), refl)
queue_all-deliveries accepts (d ∷ ds) w =
    let w' = record w { queued = if accepts d.id then d.id ∷ w.queued else w.queued } in
    let ((c, r), q) = queue_all-deliveries accepts ds w' in
    ((if accepts d.id then (c.0 + 1, c.1) else (c.0, c.1 + 1), rw r refl), rw r q)

take_all : {A : Type 0} (n : ℕ) (xs : List A) → length xs ≤ n → take n xs ≡ xs
unfolding length
take_all zero [] h = refl
take_all zero (x ∷ xs) h = absurd (ground (arith, h))
take_all (suc n) [] h = refl
take_all (suc n) (x ∷ xs) h = ap (λ ys. x ∷ ys) (take_all n xs (omega (arith, h)))

length-find_many : {A : Type 0} (p : A → Bool) (xs : List A) → length (find_many p xs) ≡ count p xs
unfolding length find_many count
length-find_many p [] = refl
length-find_many p (x ∷ xs) = ground (arith, length-find_many p xs)

found_listed :
    (now id : ℕ) (xs : List EmailDelivery) {d : EmailDelivery}
    → find_first (is_delivery id) xs ≡ some d
    → is_stale now d ≡ true
    → any (λ e. d.id == e.id) (find_many (is_stale now) xs) ≡ true
unfolding find_first find_many
found_listed now id [] f s = absurd (ground (arith, f))
found_listed now id (x ∷ xs) {d} f s = elim (Bool-cases (is_delivery id x)) [
  | inl e ↦ let same : x ≡ d = some-injective _ _ (rw e at f) in rw (same, s, beq_refl d.id) refl
  | inr e ↦
      let rest : any (λ k. d.id == k.id) (find_many (is_stale now) xs) ≡ true =
        found_listed now id xs {d = d} (rw e at f) s in
      elim (Bool-cases (is_stale now x)) [ inl t ↦ rw t (ground (arith, rest)) | inr t ↦ rw t rest ]
]

long_sending :
    (now t : ℕ) (d : EmailDelivery)
    → d.status ≡ EmailDeliveryStatus.sending
    → d.last_attempt_at ≡ some t
    → t + 10 * 60 * 1000 < now
    → is_stale now d ≡ true
long_sending now t d sending attempted long = rw (sending, attempted) (ground (arith, long))

-- A run of the recovery job that nothing interrupts gives a delivery back that is in SENDING since
-- an attempt more than ten minutes ago: it is PENDING afterwards, with a note of the recovery as its
-- last error, and is otherwise, its attempts included, as it was. This asks that no more deliveries
-- are stuck than one run takes, 100.
pub stale_given_back :
    (accepts : ℕ → Bool) (now id t : ℕ) (w : State) {d : EmailDelivery}
    → find_first (is_delivery id) w.deliveries ≡ some d
    → d.status ≡ EmailDeliveryStatus.sending
    → d.last_attempt_at ≡ some t
    → t + 10 * 60 * 1000 < now
    → count (is_stale now) w.deliveries ≤ 100
    → find_first (is_delivery id) (process_recovery (λ s. s) accepts now w).1.deliveries
      ≡ some (record d {
        status = EmailDeliveryStatus.pending;
        last_error = some "Recovered stale sending attempt";
      })
unfolding process_recovery
stale_given_back accepts now id t w {d} f sending attempted long h =
    let s = long_sending now t d sending attempted long in
    let stuck = find_many (is_stale now) w.deliveries in
    let all : take batch stuck ≡ stuck =
      take_all batch stuck (rw (length-find_many (is_stale now) w.deliveries) h) in
    let ((n, r), q) = reset_all-deliveries now stuck w in
    let w' = (reset_all (λ v. v) now stuck w).1 in
    let waiting =
      take batch
        (by_created (find_many (λ e. e.status == EmailDeliveryStatus.pending) w'.deliveries)) in
    let ((c, r'), q') = queue_all-deliveries accepts waiting w' in
    rw (all, r, r')
      (rw (
        q',
        q,
        find_first-update_many (is_delivery id) (listed now stuck) recovered w.deliveries
            (λ x _. refl),
        f,
        s,
        found_listed now id w.deliveries f s,
      ))
