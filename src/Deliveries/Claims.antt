-- ===== src/Deliveries/Claims.antt =====
-- Only a job that claims a delivery sends it.
use opsdesk.Base.{
  Bool-cases, ◌==◌, find_first, count, find_first_holds, Distinct, count_unique,
  update_many_uncounted, ok, ℕ, ◌≡◌, sym, subst, ◌∙◌, ◌≢◌, ◌⊎◌, inl, inr, true, false, Option, none,
  some, List, arith, nat_eq,
}
use opsdesk.Enums.{EmailDeliveryStatus, email_delivery_status_eq}
use opsdesk.Schema.{EmailDelivery}
use opsdesk.State.{State}
use opsdesk.Deliveries.{is_delivery}
use opsdesk.Deliveries.Worker.{
  process_ticket_reply, claim_and_send, claims, as_sending, has_terminal_status, SendOutcome,
  skipped,
}

claims_key : (id : ℕ) (x : EmailDelivery) → claims id x ≡ true → is_delivery id x ≡ true
claims_key id x h = ground (arith, h)

off_pending :
    (s : EmailDeliveryStatus)
    → s ≢ EmailDeliveryStatus.pending
    → (s == EmailDeliveryStatus.pending) ≡ false
off_pending s np = elim (Bool-cases (s == EmailDeliveryStatus.pending)) [
  | inl e ↦ absurd (np ((email_delivery_status_eq.beq_iff s EmailDeliveryStatus.pending).0 e))
  | inr e ↦ e
]

nothing_to_claim :
    (id : ℕ) (xs : List EmailDelivery) {d : EmailDelivery}
    → Distinct (λ x. x.id) xs
    → find_first (is_delivery id) xs ≡ some d
    → d.status ≢ EmailDeliveryStatus.pending
    → count (claims id) xs ≡ 0
nothing_to_claim id xs {d} distinct found np =
    let key : d.id ≡ id = ground (arith, find_first_holds (is_delivery id) xs found) in
    count_unique (λ x. x.id) (is_delivery id) (claims id) xs (claims_key id)
      (λ x h. ground (arith, h, key)) distinct found
    ∙ ground (arith, off_pending d.status np)

-- Where a delivery is not pending at the moment of the claim, a job for it is skipped: it does not
-- call the provider and writes nothing, whatever the delivery was when the job read it.
pub unclaimed_skipped :
    (before during : State → State) (delivery_id : ℕ) (outcome : SendOutcome) (attempts_made : ℕ)
    (max_attempts : Option ℕ) (now : ℕ) (w : State) {d d' : EmailDelivery}
    → find_first (is_delivery delivery_id) w.deliveries ≡ some d
    → find_first (is_delivery delivery_id) (before w).deliveries ≡ some d'
    → Distinct (λ x. x.id) (before w).deliveries
    → d'.status ≢ EmailDeliveryStatus.pending
    → (process_ticket_reply before during delivery_id outcome attempts_made max_attempts now w
        ≡ (ok (skipped (some d.status)), w))
      ⊎ (process_ticket_reply before during delivery_id outcome attempts_made max_attempts now w
          ≡ (ok (skipped none), before w))
unfolding process_ticket_reply claim_and_send
unclaimed_skipped before during delivery_id outcome attempts_made max_attempts now w {d} {d'} read
      there distinct np =
    elim (Bool-cases (has_terminal_status d.status)) [
      | inl t ↦ inl (rw (read, t))
      | inr t ↦
          let key : d.id ≡ delivery_id =
            ground (arith, find_first_holds (is_delivery delivery_id) w.deliveries read) in
          let zero_claims : count (claims d.id) (before w).deliveries ≡ 0 =
            nothing_to_claim d.id (before w).deliveries distinct
              (subst (λ k. find_first (is_delivery k) (before w).deliveries ≡ some d') (sym key)
                there)
              np in
          inr (
            rw (
              read,
              t,
              zero_claims,
              update_many_uncounted (claims d.id) (as_sending now) (before w).deliveries
                  zero_claims,
            ))
    ]
