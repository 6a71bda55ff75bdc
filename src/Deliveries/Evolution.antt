-- ===== src/Deliveries/Evolution.antt =====
-- Whatever the worker, the recovery job and the webhook do, in any interleaving, a delivery only
-- moves along the diagram of Deliveries/Machine.
use opsdesk.Base.{
  modify, Failure, by_pure, by_throw, by_gets, by_or_throw, by_if, by_transaction, by_reject,
  by_bind, by_then, by_modify, Progress, ℕ, String, ◌≡◌, refl, Bool, true, Option, arith,
}
use opsdesk.Enums.{EmailDeliveryStatus, email_delivery_status_eq}
use opsdesk.Schema.{EmailDelivery}
use opsdesk.Deliveries.{publish_delivery, update_and_publish, update_deliveries}
use opsdesk.Deliveries.Machine.{
  Evolves, Evolves-Preorder, RowEvolves, TableEvolves-refl, TableEvolves-update, one_step, by_error,
  claim, fail, give_back, hand_over, here, sending_flight,
}
use opsdesk.Deliveries.Worker.{
  as_failed, as_pending, as_sending, as_sent, claims, still_sending, fail_delivery,
  lacks_provider_id, with_provider_id, SendOutcome, accepted, after_failure, claim_and_send,
  record_sent, refused, reset_delivery, send_claimed, settle, process_ticket_reply,
}
use opsdesk.Deliveries.Recovery.{is_stale_row}
use opsdesk.State.{State}

pub by_update :
    (p : EmailDelivery → Bool) (f : EmailDelivery → EmailDelivery)
    → ((x : EmailDelivery) → p x ≡ true → RowEvolves x (f x))
    → Progress Evolves (update_deliveries p f)
by_update p f keep = by_modify _ (λ w. TableEvolves-update p f w.deliveries keep)

pub by_publish :
    (d : EmailDelivery) (s : EmailDeliveryStatus) → Progress Evolves (publish_delivery d s)
by_publish d s = by_modify _ (λ w. TableEvolves-refl w.deliveries)

pub ruleset rules = (
  by_pure, by_throw, by_gets, by_or_throw, by_if, by_transaction, by_reject, by_bind, by_then,
  by_update, by_publish, Evolves-Preorder,
)

pub update_and_publish-Evolves :
    (p : EmailDelivery → Bool) (f : EmailDelivery → EmailDelivery) (d : EmailDelivery)
    (s : EmailDeliveryStatus)
    → ((x : EmailDelivery) → p x ≡ true → RowEvolves x (f x))
    → Progress Evolves (update_and_publish p f d s)
unfolding update_and_publish
update_and_publish-Evolves p f d s keep = search rules

pub as_sending-RowEvolves :
    (id now : ℕ) (x : EmailDelivery) → claims id x ≡ true → RowEvolves x (as_sending now x)
as_sending-RowEvolves id now x h =
    one_step x _ EmailDeliveryStatus.pending (refl, refl, refl, refl, refl, omega arith)
      (ground (arith, h)) claim

pub as_failed-RowEvolves :
    (id now : ℕ) (error : String) (x : EmailDelivery)
    → still_sending id x ≡ true
    → RowEvolves x (as_failed now error x)
as_failed-RowEvolves id now error x h =
    one_step x _ EmailDeliveryStatus.sending (refl, refl, refl, refl, refl, omega arith)
      (ground (arith, h)) (fail sending_flight by_error)

pub as_sent-RowEvolves :
    (id now : ℕ) (provider_id : String) (x : EmailDelivery)
    → still_sending id x ≡ true
    → RowEvolves x (as_sent now provider_id x)
as_sent-RowEvolves id now provider_id x h =
    one_step x _ EmailDeliveryStatus.sending (refl, refl, refl, refl, refl, omega arith)
      (ground (arith, h)) hand_over

pub as_pending-RowEvolves :
    (id : ℕ) (error : String) (x : EmailDelivery)
    → still_sending id x ≡ true
    → RowEvolves x (as_pending error x)
as_pending-RowEvolves id error x h =
    one_step x _ EmailDeliveryStatus.sending (refl, refl, refl, refl, refl, omega arith)
      (ground (arith, h)) give_back

pub recovered-RowEvolves :
    (id now : ℕ) (error : String) (x : EmailDelivery)
    → is_stale_row id now x ≡ true
    → RowEvolves x (as_pending error x)
recovered-RowEvolves id now error x h =
    one_step x _ EmailDeliveryStatus.sending (refl, refl, refl, refl, refl, omega arith)
      (ground (arith, h)) give_back

pub with_provider_id-RowEvolves :
    (id : ℕ) (provider_id : String) (x : EmailDelivery)
    → lacks_provider_id id x ≡ true
    → RowEvolves x (with_provider_id provider_id x)
with_provider_id-RowEvolves id provider_id x h = record {
  same_id = refl;
  same_organization = refl;
  same_ticket = refl;
  same_message = refl;
  same_recipient = refl;
  attempts = omega arith;
  reaches = here;
}

pub ruleset moves = (
  as_sending-RowEvolves, as_failed-RowEvolves, as_sent-RowEvolves, as_pending-RowEvolves,
  recovered-RowEvolves, with_provider_id-RowEvolves, update_and_publish-Evolves,
)

fail_delivery-Evolves :
    (d : EmailDelivery) (now : ℕ) (error : String) → Progress Evolves (fail_delivery d now error)
unfolding fail_delivery
fail_delivery-Evolves d now error = unfold update_and_publish in search (rules, moves) depth 8

reset_delivery-Evolves :
    (d : EmailDelivery) (error : String) → Progress Evolves (reset_delivery d error)
unfolding reset_delivery
reset_delivery-Evolves d error = search (rules, moves) depth 8

after_failure-Evolves :
    (d : EmailDelivery) (retryable final : Bool) (e : Failure) (now : ℕ) (name : String)
    → Progress Evolves (after_failure d retryable final e now name)
unfolding after_failure
after_failure-Evolves d retryable final e now name =
    search (rules, fail_delivery-Evolves, reset_delivery-Evolves) depth 8

record_sent-Evolves :
    (d : EmailDelivery) (provider_id : String) (now : ℕ)
    → Progress Evolves (record_sent d provider_id now)
unfolding record_sent
record_sent-Evolves d provider_id now = search (rules, moves) depth 12

settle-Evolves :
    (d : EmailDelivery) (outcome : SendOutcome) (final : Bool) (now : ℕ)
    → Progress Evolves (settle d outcome final now)
unfolding settle
settle-Evolves d (refused retryable name) final now =
    after_failure-Evolves d retryable final _ now name
settle-Evolves d (accepted provider_id) final now =
    search (rules, after_failure-Evolves, record_sent-Evolves) depth 8

module _ (during : State → State) (during-Evolves : (w : State) → Evolves w (during w)) where
  by_during : Progress Evolves (modify during)
  by_during = by_modify during during-Evolves

  send_claimed-Evolves :
      (d : EmailDelivery) (is_reply : Bool) (outcome : SendOutcome) (final : Bool) (now : ℕ)
      → Progress Evolves (send_claimed during d is_reply outcome final now)
  unfolding send_claimed
  send_claimed-Evolves d is_reply outcome final now =
      search (rules, by_during, fail_delivery-Evolves, settle-Evolves) depth 10

  claim_and_send-Evolves :
      (d : EmailDelivery) (is_reply : Bool) (outcome : SendOutcome) (final : Bool) (now : ℕ)
      → Progress Evolves (claim_and_send during d is_reply outcome final now)
  unfolding claim_and_send
  claim_and_send-Evolves d is_reply outcome final now =
      search (rules, moves, send_claimed-Evolves) depth 10

module _ (before during : State → State) (before-Evolves : (w : State) → Evolves w (before w))
    (during-Evolves : (w : State) → Evolves w (during w)) where
  by_before : Progress Evolves (modify before)
  by_before = by_modify before before-Evolves

  claimed :
      (d : EmailDelivery) (is_reply : Bool) (outcome : SendOutcome) (final : Bool) (now : ℕ)
      → Progress Evolves (claim_and_send during d is_reply outcome final now)
  claimed = claim_and_send-Evolves during during-Evolves

  -- A run of the job evolves the table, whatever evolution others commit before its claim and
  -- during its call of the provider, and whatever the provider answers.
  pub process_ticket_reply-Evolves :
      (delivery_id : ℕ) (outcome : SendOutcome) (attempts_made : ℕ) (max_attempts : Option ℕ)
      (now : ℕ)
      → Progress Evolves
          (process_ticket_reply before during delivery_id outcome attempts_made max_attempts now)
  unfolding process_ticket_reply
  process_ticket_reply-Evolves delivery_id outcome attempts_made max_attempts now =
      search (rules, by_before, claimed) depth 10
