-- ===== src/Deliveries/Replay.antt =====
-- Events and jobs that come twice.
use opsdesk.Base.{
  Bool-cases, ◌==◌, beq_refl, count, update_many, any, Failure, unique_violation, unexpected, ok,
  err, ℕ, String, ◌≡◌, refl, ◌≢◌, ◌⊎◌, inl, inr, Bool, true, false, ◌&&◌, Option, none, some, arith,
  nat_eq,
}
use opsdesk.Enums.{email_delivery_status_eq, EmailDeliveryStatus}
use opsdesk.Schema.{EmailDelivery}
use opsdesk.State.{State}
use opsdesk.Deliveries.{id_taken}
use opsdesk.Deliveries.Events.{
  map_status, allowed, find_delivery, extract_delivery_id, on_unique_violation, publish_change,
  OutboundEmailEventType, apply_event, same_event, event_name, may_take_id, Tags, duplicate, handle,
  ignored, processed,
}

-- the event is in the table of events
abbrev pub is_recorded : OutboundEmailEventType → String → State → Bool
is_recorded type email_id w = any (same_event (event_name type) email_id) w.webhook_events

abbrev did_change : EmailDelivery → OutboundEmailEventType → String → ℕ → State → Bool
did_change d type email_id now w =
    count (allowed d.id (map_status type now)) (
      update_many (may_take_id d.id email_id)
        (λ x. record x { provider_message_id = some email_id }) w.deliveries)
    == 1

apply_event_cases :
    (d : EmailDelivery) (type : OutboundEmailEventType) (email_id message : String) (now : ℕ)
    (w : State)
    → ((e : Failure) × (apply_event d type email_id message now w ≡ (err e, w)))
      ⊎ ((changed : Bool) × ((apply_event d type email_id message now w).0 ≡ ok changed)
          × (is_recorded type email_id (apply_event d type email_id message now w).1 ≡ true))
unfolding apply_event
apply_event_cases d type email_id message now w = elim (Bool-cases (is_recorded type email_id w)) [
  | inl s ↦ inl (unique_violation, rw s)
  | inr s ↦
      elim (Bool-cases
        (id_taken d.id email_id w.deliveries && any (may_take_id d.id email_id) w.deliveries)) [
          | inl c ↦ inl (unique_violation, rw (s, c))
          | inr c ↦ inr (
            did_change d type email_id now w,
            rw (s, c),
            rw (s, c, beq_refl (event_name type), beq_refl email_id),
          )
        ]
]

seen_again :
    (d : EmailDelivery) (type : OutboundEmailEventType) (email_id message : String) (now : ℕ)
    (w : State)
    → is_recorded type email_id w ≡ true
    → apply_event d type email_id message now w ≡ (err unique_violation, w)
unfolding apply_event
seen_again d type email_id message now w h = rw h

-- the lookup returns, or the tag is a text that is no id
find_cases :
    (tags : Tags) (email_id : String) (w : State)
    → ((found : Option EmailDelivery) × (find_delivery (extract_delivery_id tags) email_id w
          ≡ (ok found, w)))
      ⊎ ((tags ≡ Tags.malformed_tag)
          × (find_delivery (extract_delivery_id tags) email_id w ≡ (err (unexpected "P2023"), w)))
unfolding find_delivery extract_delivery_id
find_cases (Tags.delivery_tag id) email_id w = inl (_, refl)
find_cases Tags.malformed_tag email_id w = inr (refl, refl)
find_cases Tags.no_object email_id w = inl (_, refl)
find_cases Tags.no_tag email_id w = inl (_, refl)
find_cases Tags.empty_tag email_id w = inl (_, refl)
find_cases Tags.other_tag email_id w = inl (_, refl)

-- An event that the table of events holds changes nothing, and the call fails only for a text that is no
-- UUID under the tag.
pub handle_recorded :
    (type : OutboundEmailEventType) (email_id : String) (tags : Tags) (message : String) (now : ℕ)
    (w : State)
    → is_recorded type email_id w ≡ true
    → (handle (λ s. s) type email_id tags message now w ≡ (ok ignored, w))
      ⊎ (handle (λ s. s) type email_id tags message now w ≡ (ok duplicate, w))
      ⊎ ((tags ≡ Tags.malformed_tag)
          × (handle (λ s. s) type email_id tags message now w ≡ (err (unexpected "P2023"), w)))
unfolding handle
handle_recorded type email_id tags message now w h = elim (find_cases tags email_id w) [
  | inl (none, f) ↦ inl (rw f)
  | inl (some d, f) ↦ inr (inl (rw (f, seen_again d type email_id message now w h)))
  | inr (m, f) ↦ inr (inr (m, rw f))
]

published_recorded :
    (changed : Bool) (d : EmailDelivery) (s : EmailDeliveryStatus) (type : OutboundEmailEventType)
    (email_id : String) (w : State)
    → is_recorded type email_id w ≡ true
    → is_recorded type email_id (publish_change changed d s w).1 ≡ true
published_recorded true d s type email_id w h = h
published_recorded false d s type email_id w h = h

not_processed : (e : Failure) (w : State) → (on_unique_violation e w).0 ≢ ok processed
not_processed unique_violation w h = absurd (ground (arith, h))
not_processed _ w h = absurd (ground (arith, h))

-- Once a call returned that it processed an event, the event is in the table: together with
-- handle_recorded, it is processed once.
handle_records :
    (others : State → State) (type : OutboundEmailEventType) (email_id : String) (tags : Tags)
    (message : String) (now : ℕ) (w : State)
    → (handle others type email_id tags message now w).0 ≡ ok processed
    → is_recorded type email_id (handle others type email_id tags message now w).1 ≡ true
unfolding handle
handle_records others type email_id tags message now w h = elim (find_cases tags email_id w) [
  | inl (none, f) ↦ absurd (ground (arith, rw f at h))
  | inl (some d, f) ↦ elim (apply_event_cases d type email_id message now (others w)) [
    | inl (e, r) ↦ absurd (not_processed e (others w) (rw (f, r) at h))
    | inr (changed, r, s) ↦ rw (f, r) (published_recorded changed d _ type email_id _ s)
  ]
  | inr (m, f) ↦ absurd (ground (arith, rw f at h))
]

-- After an event was processed, the same event again is a duplicate or is ignored, whatever its
-- tags and its message id, and leaves the state as it is; only with a text that is no UUID under the
-- tag of the delivery it throws instead, and leaves the state as it is too.
pub handle_once :
    (others : State → State) (type : OutboundEmailEventType) (email_id : String) (tags tags' : Tags)
    (message message' : String) (now later : ℕ) (w : State)
    → (handle others type email_id tags message now w).0 ≡ ok processed
    → let w' = (handle others type email_id tags message now w).1 in
      (handle (λ s. s) type email_id tags' message' later w' ≡ (ok ignored, w'))
      ⊎ (handle (λ s. s) type email_id tags' message' later w' ≡ (ok duplicate, w'))
      ⊎ ((tags' ≡ Tags.malformed_tag)
          × (handle (λ s. s) type email_id tags' message' later w'
              ≡ (err (unexpected "P2023"), w')))
handle_once others type email_id tags tags' message message' now later w h =
    handle_recorded type email_id tags' message' later _
      (handle_records others type email_id tags message now w h)
