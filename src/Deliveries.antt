-- ===== src/Deliveries.antt =====
-- Outbound email: what the worker (Deliveries/Worker), the recovery job (Deliveries/Recovery) and the
-- provider's webhook (Deliveries/Events) do to the rows of `email_deliveries`.
pub mod Worker
pub mod Recovery
pub mod Events
pub mod Machine
pub mod Evolution
pub mod History
pub mod Runs
pub mod Claims
pub mod Stale
pub mod Replay
use opsdesk.Base.{
  if◌then◌else◌, ◌==◌, ◌!=◌, count, update_many, any, pure, gets, modify, ℕ, String, Bool, ◌&&◌,
  some, List, ◌∷◌, ◌>>=◌, ◌>>◌, string_eq, nat_eq, option_eq,
}
use opsdesk.Enums.{EmailDeliveryStatus, email_delivery_status_eq}
use opsdesk.Schema.{EmailDelivery}
use opsdesk.State.{Action, Published}

abbrev pub is_delivery : ℕ → EmailDelivery → Bool
is_delivery id d = d.id == id

-- `where: { id, status }`
abbrev pub in_status : ℕ → EmailDeliveryStatus → EmailDelivery → Bool
in_status id status d = (d.id == id) && (d.status == status)

abbrev pub update_deliveries :
    (EmailDelivery → Bool) → (EmailDelivery → EmailDelivery) → Action Unit
update_deliveries p f = modify (λ w. record w { deliveries = update_many p f w.deliveries })

-- EmailWorker.publishDeliveryStatus, with the columns that the caller had read
abbrev pub publish_delivery : EmailDelivery → EmailDeliveryStatus → Action Unit
publish_delivery d status = modify (λ w. record w {
  published =
      Published.email_delivery_updated d.organization_id d.ticket_id d.message_id d.id status
      ∷ w.published;
})

-- `updateMany` on one delivery and the event that follows when it changed a row
unfoldable pub update_and_publish :
    (EmailDelivery → Bool)
    → (EmailDelivery → EmailDelivery)
    → EmailDelivery
    → EmailDeliveryStatus
    → Action Unit
update_and_publish p f d status = do
  changed ← gets (λ w. count p w.deliveries)
  update_deliveries p f
  if changed == 1 then publish_delivery d status else pure tt

-- The provider's message id is a unique column: a write of it fails where another row has it.
abbrev pub id_taken : ℕ → String → List EmailDelivery → Bool
id_taken id provider_id rows =
    any (λ d. (d.id != id) && (d.provider_message_id == some provider_id)) rows
