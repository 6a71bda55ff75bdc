-- ===== src/Webhooks/Redelivery.antt =====
-- The provider may deliver an event again.
use opsdesk.Base.{
  Bool-cases, ◌==◌, pure, continue, Result, ok, err, String, ◌≡◌, refl, sym, ap, subst, inl, inr,
  Option, none, some, List, arith, string_eq, nat_eq,
}
use opsdesk.State.{State}
use opsdesk.Deliveries.Events.{OutboundEmailEventType, Tags, processed, HandleResult, handle}
use opsdesk.Webhooks.{
  Field, Surroundings, WebhookResponse, received_outbound, handle_inbound, handle_outbound,
  ResendEvent, ResendWebhookHeaders, WebhookRequest, dispatch, field, handle_outbound_type,
  handle_received_type, handle_webhook, no_field, other_type, received_inbound, EventData,
  outbound_type,
}
use opsdesk.Deliveries.Replay.{handle_once}
use opsdesk.Inbound.{
  InboundResult, WebhookIdentity, ReceivedEvent, handle_received_email, email_received,
}
use opsdesk.Inbound.Recorded.{handled_again}
use opsdesk.Webhooks.Authenticity.{Signed, Signed-authenticate}

-- a response after which the provider's event is done: of an event of a delivery, that it changed it
abbrev pub Settled : WebhookResponse → Type 0
Settled (received_outbound result) = result ≡ processed
Settled _ = Unit

-- surroundings where nobody else writes between a lookup and the transaction
abbrev pub alone : Surroundings → Surroundings
alone s = record s { others = λ w. w }

-- wrapping a result leaves the state
wrapped :
    {A : Type 0} (f : A → WebhookResponse) (r : Result A) (w : State)
    → (continue r (λ a. pure (f a)) w).1 ≡ w
wrapped f (ok a) w = refl
wrapped f (err e) w = refl

abbrev given : WebhookResponse → Result WebhookResponse → WebhookResponse
given default (ok a) = a
given default (err e) = default

unwrapped :
    (r : Result HandleResult) (w : State) (response : WebhookResponse)
    → (continue r (λ a. pure (received_outbound a)) w).0 ≡ ok response
    → Settled response
    → r ≡ ok processed
unwrapped (ok a) w response h settled =
    ap ok (subst Settled (sym (ap (given (received_outbound a)) h)) settled)
unwrapped (err e) w response h settled = absurd (ground (arith, h))

inbound_unwrapped :
    (r : Result InboundResult) (w : State) (response : WebhookResponse)
    → (continue r (λ a. pure (received_inbound a)) w).0 ≡ ok response
    → (a : InboundResult) × (r ≡ ok a)
inbound_unwrapped (ok a) w response h = (a, refl)
inbound_unwrapped (err e) w response h = absurd (ground (arith, h))

inbound_again :
    (s s' : Surroundings) (svix_id : String) (email_id from : Field String)
    (to : Field (List String)) (w : State) (response : WebhookResponse)
    → (handle_inbound s svix_id email_id from to w).0 ≡ ok response
    → let w' = (handle_inbound s svix_id email_id from to w).1 in
      (handle_inbound s' svix_id email_id from to w').1 ≡ w'
unfolding handle_inbound
inbound_again s s' svix_id (field email_id) (field from) (field to) w response h =
    let identity : WebhookIdentity = record {
      webhook_message_id = svix_id;
      provider_entity_id = email_id;
    } in
    let event : ReceivedEvent = record { from = from; to = to } in
    let first =
      handle_received_email s.text s.fetching s.others s.fails event (s.email email_id) identity
        s.id s.now w in
    let (r, returned) = inbound_unwrapped first.0 first.1 response h in
    rw
      (
        wrapped received_inbound first.0 first.1,
        handled_again identity s.text s'.text s.fetching s'.fetching s.others s'.others s.fails
            s'.fails event event (s.email email_id) (s'.email email_id) s.id s'.id s.now s'.now w
            returned,
      )
      refl
inbound_again s s' svix_id no_field from to w response h = refl
inbound_again s s' svix_id other_type from to w response h = refl
inbound_again s s' svix_id (field email_id) no_field to w response h = refl
inbound_again s s' svix_id (field email_id) other_type to w response h = refl
inbound_again s s' svix_id (field email_id) (field from) no_field w response h = refl
inbound_again s s' svix_id (field email_id) (field from) other_type w response h = refl

outbound_again :
    (s s' : Surroundings) (type : OutboundEmailEventType) (svix_id : String)
    (email_id : Field String) (tags : Tags) (w : State) (response : WebhookResponse)
    → (handle_outbound s type svix_id email_id tags w).0 ≡ ok response
    → Settled response
    → let w' = (handle_outbound s type svix_id email_id tags w).1 in
      (handle_outbound (alone s') type svix_id email_id tags w').1 ≡ w'
unfolding handle_outbound
outbound_again s s' type svix_id (field email_id) tags w response h settled =
    let first = handle s.others type email_id tags svix_id s.now w in
    rw (wrapped received_outbound first.0 first.1)
      (elim (handle_once s.others type email_id tags tags svix_id svix_id s.now s'.now w
        (unwrapped first.0 first.1 response h settled)) [
          | inl e ↦ rw e refl
          | inr (inl e) ↦ rw e refl
          | inr (inr (m, e)) ↦ rw e refl
        ])
outbound_again s s' type svix_id no_field tags w response h settled = refl
outbound_again s s' type svix_id other_type tags w response h settled = refl

received_type_again :
    (s s' : Surroundings) (svix_id : String) (payload : Option EventData) (w : State)
    (response : WebhookResponse)
    → (handle_received_type s svix_id payload w).0 ≡ ok response
    → let w' = (handle_received_type s svix_id payload w).1 in
      (handle_received_type s' svix_id payload w').1 ≡ w'
unfolding handle_received_type
received_type_again s s' svix_id none w response h = refl
received_type_again s s' svix_id (some d) w response h =
    inbound_again s s' svix_id d.email_id d.from d.to w response h

outbound_type_again :
    (s s' : Surroundings) (type : Option OutboundEmailEventType) (svix_id : String)
    (payload : Option EventData) (w : State) (response : WebhookResponse)
    → (handle_outbound_type s type svix_id payload w).0 ≡ ok response
    → Settled response
    → let w' = (handle_outbound_type s type svix_id payload w).1 in
      (handle_outbound_type (alone s') type svix_id payload w').1 ≡ w'
unfolding handle_outbound_type
outbound_type_again s s' none svix_id payload w response h settled = refl
outbound_type_again s s' (some type) svix_id none w response h settled = refl
outbound_type_again s s' (some type) svix_id (some d) w response h settled =
    outbound_again s s' type svix_id d.email_id d.tags w response h settled

dispatch_again :
    (s s' : Surroundings) (svix_id : String) (event : ResendEvent) (w : State)
    (response : WebhookResponse)
    → (dispatch s svix_id event w).0 ≡ ok response
    → Settled response
    → let w' = (dispatch s svix_id event w).1 in (dispatch (alone s') svix_id event w').1 ≡ w'
unfolding dispatch handle_received_type handle_outbound_type
dispatch_again s s' svix_id event w response h settled =
    elim (Bool-cases (event.type == email_received)) [
      | inl e ↦ rw e (received_type_again s (alone s') svix_id event.payload w response (rw e at h))
      | inr e ↦ rw e (
          outbound_type_again s s' (outbound_type event.type) svix_id event.payload w response
            (rw e at h) settled)
    ]

-- After a call of the webhook for a received email, or for an event of a delivery that changed it,
-- every later call with the same event of the provider leaves the state as it is, if nobody else
-- writes while that call runs.
pub redelivered_unchanged :
    (verify : String → ResendWebhookHeaders → Option ResendEvent) (s s' : Surroundings)
    (request request' : WebhookRequest) (svix_id : String) (event : ResendEvent) (w : State)
    (response : WebhookResponse)
    → Signed verify request svix_id event
    → Signed verify request' svix_id event
    → (handle_webhook verify s request w).0 ≡ ok response
    → Settled response
    → let w' = (handle_webhook verify s request w).1 in
      (handle_webhook verify (alone s') request' w').1 ≡ w'
unfolding handle_webhook
redelivered_unchanged verify s s' request request' svix_id event w response a b h settled =
    let first = Signed-authenticate verify request svix_id event w a in
    rw (first, Signed-authenticate verify request' svix_id event _ b)
      (dispatch_again s s' svix_id event w response (rw first at h) settled)
