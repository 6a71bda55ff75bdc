-- ===== src/Deliveries/Runs.antt =====
-- Sequences of jobs, events and recovery runs.
use opsdesk.Base.{find_first, ℕ, String, ◌≡◌, Bool, Option, some, List, [], ◌∷◌}
use opsdesk.Enums.{email_delivery_status_eq}
use opsdesk.Deliveries.Events.{OutboundEmailEventType, Tags, handle}
use opsdesk.Deliveries.Machine.{Evolves, InFlight, Evolves-Preorder, final_stays}
use opsdesk.Deliveries.Evolution.{process_ticket_reply-Evolves}
use opsdesk.Schema.{EmailDelivery}
use opsdesk.State.{State}
use opsdesk.Deliveries.Recovery.{process_recovery}
use opsdesk.Deliveries.{is_delivery}
use opsdesk.Deliveries.Worker.{SendOutcome, process_ticket_reply}
use opsdesk.Deliveries.History.{handle-Evolves, process_recovery-Evolves}

-- What can happen to the deliveries: a job of the worker, an event of the provider, a recovery run.
pub data Operation : Type 0 where
  job :
      (delivery_id : ℕ) (outcome : SendOutcome) (attempts_made : ℕ) (max_attempts : Option ℕ)
      (now : ℕ)
      → Operation
  event :
      (type : OutboundEmailEventType) (email_id : String) (tags : Tags)
      (webhook_message_id : String) (now : ℕ)
      → Operation
  recovery : (accepts : ℕ → Bool) (now : ℕ) → Operation

unfoldable pub run_one : Operation → State → State
run_one (job delivery_id outcome attempts_made max_attempts now) w =
    (process_ticket_reply (λ s. s) (λ s. s) delivery_id outcome attempts_made max_attempts now w).1
run_one (event type email_id tags webhook_message_id now) w =
    (handle (λ s. s) type email_id tags webhook_message_id now w).1
run_one (recovery accepts now) w = (process_recovery (λ s. s) accepts now w).1

unfoldable pub run : List Operation → State → State
run [] w = w
run (o ∷ os) w = run os (run_one o w)

run_one-Evolves : (o : Operation) (w : State) → Evolves w (run_one o w)
unfolding run_one
run_one-Evolves (job delivery_id outcome attempts_made max_attempts now) w =
    (process_ticket_reply-Evolves (λ s. s) (λ s. s) Evolves-Preorder.reflexive
        Evolves-Preorder.reflexive delivery_id outcome attempts_made max_attempts now).at
      w
run_one-Evolves (event type email_id tags webhook_message_id now) w =
    (handle-Evolves (λ s. s) Evolves-Preorder.reflexive type email_id tags webhook_message_id
        now).at
      w
run_one-Evolves (recovery accepts now) w =
    (process_recovery-Evolves (λ s. s) Evolves-Preorder.reflexive accepts now).at w

-- Every sequence of jobs, events and recovery runs moves each delivery along the diagram and keeps
-- its identity, its recipient and its attempts so far.
pub run-Evolves : (os : List Operation) (w : State) → Evolves w (run os w)
unfolding run
run-Evolves [] w = Evolves-Preorder.reflexive w
run-Evolves (o ∷ os) w =
    Evolves-Preorder.transitive w (run_one o w) (run os (run_one o w)) (run_one-Evolves o w)
      (run-Evolves os (run_one o w))

-- A delivery that is delivered, bounced, complained about, suppressed or failed stays so for ever.
pub final_status_for_ever :
    (os : List Operation) (w : State) (id : ℕ) {d : EmailDelivery}
    → find_first (is_delivery id) w.deliveries ≡ some d
    → ¬ InFlight d.status
    → (d' : EmailDelivery) × (find_first (is_delivery id) (run os w).deliveries ≡ some d')
      × (d'.status ≡ d.status)
final_status_for_ever os w id {d} h final =
    let (d', h', r) = (run-Evolves os w).at_id id d h in (d', h', final_stays r.reaches final)
