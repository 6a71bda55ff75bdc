-- ===== src/Deliveries/Worker.antt =====
-- EmailWorker.processTicketReply of apps/api/src/jobs/email.worker.ts.
use opsdesk.Base.{
  leb, if◌then◌else◌, ◌==◌, ◌!=◌, find_first, count, any, pure, throw, gets, or_throw, modify,
  or_else, Failure, unrecoverable, unique_violation, unexpected, ℕ, ◌+◌, String, Bool, true, false,
  not, ◌&&◌, ◌||◌, Option, none, some, ◌>>=◌, ◌>>◌, nat_eq, string_eq, option_eq,
}
use opsdesk.Enums.{
  EmailDeliveryStatus, MessageKind, AuthorType, email_delivery_status_eq, message_kind_eq,
  author_type_eq,
}
use opsdesk.Schema.{EmailDelivery, TicketMessage}
use opsdesk.State.{State, Action}
use opsdesk.Deliveries.{
  id_taken, in_status, is_delivery, publish_delivery, update_and_publish, update_deliveries,
}

-- What the call of the provider comes to.
pub data SendOutcome : Type 0 where
  accepted : (provider_message_id : String) → SendOutcome
  refused : (retryable : Bool) → (error_name : String) → SendOutcome

-- What a run of the job returns.
pub data JobResult : Type 0 where
  skipped : Option EmailDeliveryStatus → JobResult
  sent : (provider_message_id : String) → JobResult

abbrev pub has_terminal_status : EmailDeliveryStatus → Bool
has_terminal_status EmailDeliveryStatus.sent = true
has_terminal_status EmailDeliveryStatus.delivered = true
has_terminal_status EmailDeliveryStatus.bounced = true
has_terminal_status EmailDeliveryStatus.complained = true
has_terminal_status EmailDeliveryStatus.suppressed = true
has_terminal_status EmailDeliveryStatus.failed = true
has_terminal_status _ = false

abbrev pub as_sending : ℕ → EmailDelivery → EmailDelivery
as_sending now d = record d {
  status = EmailDeliveryStatus.sending;
  attempt_count = d.attempt_count + 1;
  last_attempt_at = some now;
  last_error = none;
}

abbrev pub as_failed : ℕ → String → EmailDelivery → EmailDelivery
as_failed now error d = record d {
  status = EmailDeliveryStatus.failed;
  failed_at = some now;
  last_error = some error;
}

abbrev pub as_sent : ℕ → String → EmailDelivery → EmailDelivery
as_sent now provider_id d = record d {
  status = EmailDeliveryStatus.sent;
  provider_message_id = some provider_id;
  sent_at = some now;
  last_error = none;
}

abbrev pub as_pending : String → EmailDelivery → EmailDelivery
as_pending error d = record d { status = EmailDeliveryStatus.pending; last_error = some error }

abbrev pub still_sending : ℕ → EmailDelivery → Bool
still_sending id = in_status id EmailDeliveryStatus.sending

unfoldable pub fail_delivery : EmailDelivery → ℕ → String → Action Unit
unfolding update_and_publish
fail_delivery d now error =
    update_and_publish (still_sending d.id) (as_failed now error) d EmailDeliveryStatus.failed

unfoldable pub reset_delivery : EmailDelivery → String → Action Unit
unfolding update_and_publish
reset_delivery d error =
    update_and_publish (still_sending d.id) (as_pending error) d EmailDeliveryStatus.pending

-- the `catch` block: final or permanent failures end the delivery, others put it back
unfoldable pub after_failure :
    EmailDelivery → (retryable final : Bool) → Failure → ℕ → String → Action JobResult
unfolding fail_delivery reset_delivery
after_failure d retryable final error now name =
    if not retryable || final
    then (do
      fail_delivery d now name
      throw (if not retryable then unrecoverable "Permanent email delivery failure" else error))
    else (do reset_delivery d name; throw error)

abbrev pub lacks_provider_id : ℕ → EmailDelivery → Bool
lacks_provider_id id d = (d.id == id) && (d.provider_message_id == none)

abbrev pub with_provider_id : String → EmailDelivery → EmailDelivery
with_provider_id provider_id d = record d { provider_message_id = some provider_id }

-- the two updates and the event after the provider accepted the message
unfoldable pub record_sent : EmailDelivery → String → ℕ → Action JobResult
unfolding update_and_publish
record_sent d provider_id now = do
  sent_count ← gets (λ w. count (still_sending d.id) w.deliveries)
  update_deliveries (still_sending d.id) (as_sent now provider_id)
  update_deliveries (lacks_provider_id d.id) (with_provider_id provider_id)
  if sent_count == 1 then publish_delivery d EmailDeliveryStatus.sent else pure tt
  pure (sent provider_id)

-- one of the two updates would write an id that is another delivery's
abbrev pub id_conflict : EmailDelivery → String → State → Bool
id_conflict d provider_id w =
    id_taken d.id provider_id w.deliveries
    && (any (still_sending d.id) w.deliveries || any (lacks_provider_id d.id) w.deliveries)

-- Such a write throws, and the `catch` block treats that as a failure that may be retried.
unfoldable pub settle : EmailDelivery → SendOutcome → (final : Bool) → ℕ → Action JobResult
unfolding after_failure record_sent
settle d (refused retryable name) final now =
    after_failure d retryable final (unexpected name) now name
settle d (accepted provider_id) final now = do
  conflicting ← gets (id_conflict d provider_id)
  if conflicting
      then after_failure d true final unique_violation now "PrismaClientKnownRequestError"
      else record_sent d provider_id now

abbrev pub message_is_reply : Option TicketMessage → Bool
message_is_reply none = false
message_is_reply (some m) =
    (m.kind == MessageKind.public_reply) && (m.author_type == AuthorType.member)

-- `!delivery.recipientEmail`
abbrev pub lacks_recipient : Option String → Bool
lacks_recipient none = true
lacks_recipient (some email) = email == ""

-- The job from the claim on. `during` is what others commit while the provider is called.
unfoldable pub send_claimed :
    (State → State) → EmailDelivery → Bool → SendOutcome → Bool → ℕ → Action JobResult
unfolding fail_delivery settle
send_claimed during d is_reply outcome final now =
    if lacks_recipient d.recipient_email
    then (do
      fail_delivery d now "Recipient email is missing"
      throw (unrecoverable "Recipient email is missing"))
    else if not is_reply
    then (do
      fail_delivery d now "Invalid email message state"
      throw (unrecoverable "Email delivery references an invalid message"))
    else (do modify during; settle d outcome final now)

abbrev pub claims : ℕ → EmailDelivery → Bool
claims id = in_status id EmailDeliveryStatus.pending

unfoldable pub claim_and_send :
    (State → State) → EmailDelivery → Bool → SendOutcome → Bool → ℕ → Action JobResult
unfolding send_claimed
claim_and_send during d is_reply outcome final now = do
  claimed ← gets (λ w. count (claims d.id) w.deliveries)
  update_deliveries (claims d.id) (as_sending now)
  if claimed != 1 then pure (skipped none) else do
    publish_delivery d EmailDeliveryStatus.sending
    send_claimed during d is_reply outcome final now

-- `before` is what others commit between the read and the claim. A job is on its final attempt when
-- `attemptsMade + 1` reaches `opts.attempts ?? 1`.
unfoldable pub process_ticket_reply :
    (before during : State → State) (delivery_id : ℕ) (outcome : SendOutcome)
    → (attempts_made : ℕ) (max_attempts : Option ℕ) (now : ℕ) → Action JobResult
unfolding claim_and_send
process_ticket_reply before during delivery_id outcome attempts_made max_attempts now = do
  found ← gets (λ w. find_first (is_delivery delivery_id) w.deliveries)
  delivery ← or_throw found (unrecoverable "Email delivery not found")
  is_reply ← gets (λ w. message_is_reply (find_first (λ m. m.id == delivery.message_id) w.messages))
  if has_terminal_status delivery.status then pure (skipped (some delivery.status)) else do
    modify before
    claim_and_send during delivery is_reply outcome
        (leb (or_else max_attempts 1) (attempts_made + 1)) now
