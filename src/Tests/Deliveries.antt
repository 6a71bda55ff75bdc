-- ===== src/Tests/Deliveries.antt =====
-- Runs of the worker, the recovery job and the webhook.
use opsdesk.Base.{
  ◌==◌, find_first, count, update_many, unexpected, ok, err, ℕ, ◌≤◌, ◌≡◌, refl, ◌≢◌, ◌⊎◌, true,
  Option, none, some, List, [], ◌∷◌, arith, nat_eq,
}
use opsdesk.Enums.{EmailDeliveryStatus, MessageKind, AuthorType, MessageSource}
use opsdesk.Schema.{EmailDelivery, TicketMessage}
use opsdesk.State.{State}
use opsdesk.Tests.Sample.{workspace}
use opsdesk.Deliveries.{is_delivery}
use opsdesk.Deliveries.Machine.{Evolves, InFlight, Evolves-Preorder}
use opsdesk.Deliveries.Events.{handle, email_delivered, email_bounced, no_tag, delivery_tag}
use opsdesk.Deliveries.Worker.{process_ticket_reply, accepted, refused}
use opsdesk.Deliveries.Recovery.{process_recovery}
use opsdesk.Deliveries.History.{handle-Evolves}
use opsdesk.Deliveries.Runs.{
  Operation, job, event, recovery, run, run-Evolves, final_status_for_ever,
}
use opsdesk.Deliveries.Events.{
  processed, ignored, duplicate, extract_delivery_id, find_delivery, Tags, apply_event, map_status,
}
use opsdesk.Deliveries.Worker.{skipped}
use opsdesk.Deliveries.Replay.{handle_once}
use opsdesk.Deliveries.Claims.{unclaimed_skipped}
use opsdesk.Deliveries.Recovery.{is_stale, batch}
use opsdesk.Deliveries.Stale.{stale_given_back}

abbrev delivery_of : ℕ → EmailDeliveryStatus → Option ℕ → EmailDelivery
delivery_of id status last = record {
  id = id;
  organization_id = 1;
  ticket_id = 1;
  message_id = 1;
  recipient_email = some "kim@example.com";
  status = status;
  provider_message_id = none;
  attempt_count = 0;
  last_attempt_at = last;
  last_error = none;
  sent_at = none;
  delivered_at = none;
  failed_at = none;
  created_at = 0;
}

abbrev reply : TicketMessage
reply = record {
  id = 1;
  organization_id = 1;
  ticket_id = 1;
  author_membership_id = some 13;
  kind = MessageKind.public_reply;
  author_type = AuthorType.member;
  source = MessageSource.manual;
  body = "Hello";
  created_at = 0;
}

abbrev outbox : State
outbox = record workspace {
  messages = reply ∷ [];
  deliveries =
      delivery_of 3 EmailDeliveryStatus.delivered none
      ∷ delivery_of 2 EmailDeliveryStatus.sending (some 0)
      ∷ delivery_of 1 EmailDeliveryStatus.pending none
      ∷ [];
}

-- the provider reports delivery 1 as delivered
abbrev webhook : State → State
webhook w = (handle (λ s. s) email_delivered "re_1" (delivery_tag 1) "wh_1" 5 w).1

webhook-Evolves : (w : State) → Evolves w (webhook w)
webhook-Evolves w =
    (handle-Evolves (λ s. s) (λ v. Evolves-Preorder.reflexive v) email_delivered "re_1"
        (delivery_tag 1) "wh_1" 5).at
      w

abbrev story : List Operation
story =
    job 1 (refused true "rate_limit_exceeded") 0 (some 5) 3
    ∷ recovery (λ _. true) 900000
    ∷ event email_bounced "re_3" (delivery_tag 3) "wh_3" 9
    ∷ []

run-Evolves_example : Evolves outbox (run story outbox)
run-Evolves_example = run-Evolves story outbox

at_3 :
    find_first (is_delivery 3) outbox.deliveries
    ≡ some (delivery_of 3 EmailDeliveryStatus.delivered none)
unfolding find_first
at_3 = refl

delivered_is_final : ¬ InFlight EmailDeliveryStatus.delivered
delivered_is_final f = elim f [ ]

final_status_for_ever_example :
    (d' : EmailDelivery) × (find_first (is_delivery 3) (run story outbox).deliveries ≡ some d')
    × (d'.status ≡ EmailDeliveryStatus.delivered)
final_status_for_ever_example = final_status_for_ever story outbox 3 at_3 delivered_is_final

processed_once :
    (handle (λ s. s) email_delivered "re_1" (delivery_tag 1) "wh_1" 5 outbox).0 ≡ ok processed
unfolding handle find_first extract_delivery_id find_delivery apply_event map_status count
    update_many
processed_once = refl

handle_once_example :
    (handle (λ s. s) email_delivered "re_1" no_tag "wh_9" 6 (webhook outbox)
      ≡ (ok ignored, webhook outbox))
    ⊎ (handle (λ s. s) email_delivered "re_1" no_tag "wh_9" 6 (webhook outbox)
        ≡ (ok duplicate, webhook outbox))
    ⊎ ((no_tag ≡ Tags.malformed_tag)
        × (handle (λ s. s) email_delivered "re_1" no_tag "wh_9" 6 (webhook outbox)
            ≡ (err (unexpected "P2023"), webhook outbox)))
handle_once_example =
    handle_once (λ s. s) email_delivered "re_1" (delivery_tag 1) no_tag "wh_1" "wh_9" 5 6 outbox
      processed_once

at_2 :
    find_first (is_delivery 2) outbox.deliveries
    ≡ some (delivery_of 2 EmailDeliveryStatus.sending (some 0))
unfolding find_first
at_2 = refl

claimed_by_other : EmailDeliveryStatus.sending ≢ EmailDeliveryStatus.pending
claimed_by_other h = absurd (ground (arith, h))

unclaimed_skipped_example :
    (process_ticket_reply (λ s. s) webhook 2 (accepted "re_2") 0 (some 5) 3 outbox
      ≡ (ok (skipped (some EmailDeliveryStatus.sending)), outbox))
    ⊎ (process_ticket_reply (λ s. s) webhook 2 (accepted "re_2") 0 (some 5) 3 outbox
        ≡ (ok (skipped none), outbox))
unclaimed_skipped_example =
    unclaimed_skipped (λ s. s) webhook 2 (accepted "re_2") 0 (some 5) 3 outbox at_2 at_2
      (omega arith) claimed_by_other

few_stuck : count (is_stale 900000) outbox.deliveries ≤ batch
unfolding count
few_stuck = omega arith

stale_given_back_example :
    find_first
      (is_delivery 2)
      (process_recovery (λ s. s) (λ id. id == 1) 900000 outbox).1.deliveries
    ≡ some (record (delivery_of 2 EmailDeliveryStatus.sending (some 0)) {
      status = EmailDeliveryStatus.pending;
      last_error = some "Recovered stale sending attempt";
    })
stale_given_back_example =
    stale_given_back (λ id. id == 1) 900000 2 0 outbox at_2 refl refl (omega arith) few_stuck
