-- ===== src/Deliveries/History.antt =====
-- The webhook and the recovery job evolve the table of deliveries, as the worker does.
use opsdesk.Base.{
  if◌then◌else◌, ◌==◌, any, modify, Failure, Result, unique_violation, ok, err, by_pure, by_bind,
  by_then, by_modify, Progress, ℕ, ◌+◌, String, ◌≡◌, refl, Bool, true, false, Option, none, some,
  List, [], ◌∷◌, arith, nat_eq,
}
use opsdesk.Enums.{EmailDeliveryStatus, email_delivery_status_eq}
use opsdesk.Deliveries.Events.{
  OutboundEmailEventType, map_status, email_sent, allowed, apply_event, apply_transition,
  email_bounced, email_complained, email_delivered, email_delivery_delayed, email_failed,
  email_suppressed, may_take_id, Tags, TagText, uuid, no_uuid, find_delivery, after_transaction,
  handle, handle_found, try_event, on_unique_violation,
}
use opsdesk.Deliveries.Machine.{
  ◌⟶*◌, hand_over, here, next, send_unclaimed, Evolves, InFlight, RowEvolves, TableEvolves-refl,
  by_bounce, by_complaint, by_error, by_suppression, delay, delayed_flight, deliver, fail,
  pending_flight, sending_flight, sent_flight, ◌⟶◌, Evolves-Preorder,
}
use opsdesk.Deliveries.Evolution.{rules, moves}
use opsdesk.Schema.{EmailDelivery, WebhookEvent}
use opsdesk.State.{State}
use opsdesk.Deliveries.Recovery.{process_recovery, queue_all, reset_all, reset_stale}

abbrev is_in_flight : EmailDeliveryStatus → Bool
is_in_flight EmailDeliveryStatus.pending = true
is_in_flight EmailDeliveryStatus.sending = true
is_in_flight EmailDeliveryStatus.sent = true
is_in_flight EmailDeliveryStatus.delayed = true
is_in_flight _ = false

flight : (s : EmailDeliveryStatus) → is_in_flight s ≡ true → InFlight s
flight EmailDeliveryStatus.pending h = pending_flight
flight EmailDeliveryStatus.sending h = sending_flight
flight EmailDeliveryStatus.sent h = sent_flight
flight EmailDeliveryStatus.delayed h = delayed_flight
flight _ h = absurd (ground (arith, h))

sent_path :
    (s : EmailDeliveryStatus)
    → any (λ r. r == s) (EmailDeliveryStatus.pending ∷ EmailDeliveryStatus.sending ∷ []) ≡ true
    → s ⟶ EmailDeliveryStatus.sent
sent_path EmailDeliveryStatus.pending h = send_unclaimed
sent_path EmailDeliveryStatus.sending h = hand_over
sent_path _ h = absurd (ground (arith, h))

-- the statuses that an event may start from lead to its status
event_path :
    (type : OutboundEmailEventType) (now : ℕ) (s : EmailDeliveryStatus)
    → any (λ r. r == s) (map_status type now).allowed_from ≡ true
    → s ⟶* (map_status type now).status
unfolding map_status
event_path email_sent now s h = next here (sent_path s h)
event_path email_delivered now s h = next here (deliver (flight s (ground (arith, h))))
event_path email_delivery_delayed now s h = next here (delay (flight s (ground (arith, h))))
event_path email_bounced now s h = next here (fail (flight s (ground (arith, h))) by_bounce)
event_path email_complained now s h = next here (fail (flight s (ground (arith, h))) by_complaint)
event_path email_suppressed now s h = next here (fail (flight s (ground (arith, h))) by_suppression)
event_path email_failed now s h = next here (fail (flight s (ground (arith, h))) by_error)

apply-RowEvolves :
    (id now : ℕ) (type : OutboundEmailEventType) (x : EmailDelivery)
    → allowed id (map_status type now) x ≡ true
    → RowEvolves x (apply_transition (map_status type now) x)
apply-RowEvolves id now type x h = record {
  same_id = refl;
  same_organization = refl;
  same_ticket = refl;
  same_message = refl;
  same_recipient = refl;
  attempts = omega arith;
  reaches = event_path type now x.status (ground (arith, h));
}

take_id-RowEvolves :
    (id : ℕ) (email_id : String) (x : EmailDelivery)
    → may_take_id id email_id x ≡ true
    → RowEvolves x (record x { provider_message_id = some email_id })
take_id-RowEvolves id email_id x h = record {
  same_id = refl;
  same_organization = refl;
  same_ticket = refl;
  same_message = refl;
  same_recipient = refl;
  attempts = omega arith;
  reaches = here;
}

record_event-Evolves :
    (f : State → List WebhookEvent)
    → Progress Evolves (modify (λ w. record w { webhook_events = f w }))
record_event-Evolves f = by_modify _ (λ w. TableEvolves-refl w.deliveries)

apply_event-Evolves :
    (d : EmailDelivery) (type : OutboundEmailEventType) (email_id webhook_message_id : String)
    (now : ℕ)
    → Progress Evolves (apply_event d type email_id webhook_message_id now)
unfolding apply_event
apply_event-Evolves d type email_id webhook_message_id now =
    search (rules, record_event-Evolves, apply-RowEvolves, take_id-RowEvolves) depth 20

by_duplicate : (e : Failure) → Progress Evolves (on_unique_violation e)
by_duplicate unique_violation = search rules
by_duplicate _ = search rules

after_transaction-Evolves :
    (d : EmailDelivery) (s : EmailDeliveryStatus) (r : Result Bool)
    → Progress Evolves (after_transaction d s r)
after_transaction-Evolves d s (ok true) = search rules
after_transaction-Evolves d s (ok false) = search rules
after_transaction-Evolves d s (err e) = by_duplicate e

try_event-Evolves :
    (d : EmailDelivery) (type : OutboundEmailEventType) (email_id webhook_message_id : String)
    (now : ℕ)
    → Progress Evolves (try_event d type email_id webhook_message_id now)
try_event-Evolves d type email_id webhook_message_id now = record {
  at = λ w.
      let (r, w') = apply_event d type email_id webhook_message_id now w in
      Evolves-Preorder.transitive w w' (after_transaction d (map_status type now).status r w').1
        ((apply_event-Evolves d type email_id webhook_message_id now).at w)
        ((after_transaction-Evolves d (map_status type now).status r).at w');
}

module _ (others : State → State) (others-Evolves : (w : State) → Evolves w (others w)) where
  by_others : Progress Evolves (modify others)
  by_others = by_modify others others-Evolves

  handle_found-Evolves :
      (d : Option EmailDelivery) (type : OutboundEmailEventType)
      (email_id webhook_message_id : String) (now : ℕ)
      → Progress Evolves (handle_found others d type email_id webhook_message_id now)
  handle_found-Evolves none type email_id webhook_message_id now = search rules
  handle_found-Evolves (some d) type email_id webhook_message_id now =
      search (rules, by_others, try_event-Evolves)

  find_delivery-Evolves :
      (id : Option TagText) (email_id : String) → Progress Evolves (find_delivery id email_id)
  unfolding find_delivery
  find_delivery-Evolves (some (uuid id)) email_id = search rules
  find_delivery-Evolves (some no_uuid) email_id = search rules
  find_delivery-Evolves none email_id = search rules

  -- A webhook event evolves the table, whatever evolution others commit between its read and its
  -- transaction, also when it is a duplicate or fails.
  pub handle-Evolves :
      (type : OutboundEmailEventType) (email_id : String) (tags : Tags)
      (webhook_message_id : String) (now : ℕ)
      → Progress Evolves (handle others type email_id tags webhook_message_id now)
  unfolding handle
  handle-Evolves type email_id tags webhook_message_id now =
      search (rules, find_delivery-Evolves, handle_found-Evolves) depth 8

  reset_stale-Evolves : (now : ℕ) (d : EmailDelivery) → Progress Evolves (reset_stale now d)
  unfolding reset_stale
  reset_stale-Evolves now d = search (rules, moves) depth 10

  reset_all-Evolves :
      (now : ℕ) (ds : List EmailDelivery) → Progress Evolves (reset_all others now ds)
  unfolding reset_all
  reset_all-Evolves now [] = search rules
  reset_all-Evolves now (d ∷ ds) = by_then Evolves-Preorder (modify others) _ by_others (
      by_bind Evolves-Preorder (reset_stale now d) _ (reset_stale-Evolves now d) (λ one.
        by_bind Evolves-Preorder (reset_all others now ds) _ (reset_all-Evolves now ds)
          (λ rest. by_pure Evolves-Preorder (one + rest))))

  by_queued : (q : State → List ℕ) → Progress Evolves (modify (λ w. record w { queued = q w }))
  by_queued q = by_modify _ (λ w. TableEvolves-refl w.deliveries)

  queue_all-Evolves :
      (accepts : ℕ → Bool) (ds : List EmailDelivery) → Progress Evolves (queue_all accepts ds)
  unfolding queue_all
  queue_all-Evolves accepts [] = search rules
  queue_all-Evolves accepts (d ∷ ds) =
      by_then Evolves-Preorder
        (modify (λ w. record w { queued = if accepts d.id then d.id ∷ w.queued else w.queued })) _
        (by_queued _)
        (by_bind Evolves-Preorder (queue_all accepts ds) _ (queue_all-Evolves accepts ds)
          (λ counts. by_pure Evolves-Preorder _))

  -- A run of the recovery job evolves the table, whatever evolution others commit before each of its
  -- steps, and whatever the queue accepts.
  pub process_recovery-Evolves :
      (accepts : ℕ → Bool) (now : ℕ) → Progress Evolves (process_recovery others accepts now)
  unfolding process_recovery
  process_recovery-Evolves accepts now =
      search (rules, by_others, reset_all-Evolves, queue_all-Evolves) depth 12
