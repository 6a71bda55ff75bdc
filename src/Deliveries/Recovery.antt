-- ===== src/Deliveries/Recovery.antt =====
-- EmailWorker.processRecovery of apps/api/src/jobs/email.worker.ts.
use opsdesk.Base.{
  ltb, leb, if◌then◌else◌, ◌==◌, length, take, find_many, count, pure, gets, modify, ℕ, ◌+◌, ◌*◌,
  Bool, false, ◌&&◌, Option, none, some, List, [], ◌∷◌, ◌>>=◌, ◌>>◌, nat_eq,
}
use opsdesk.Enums.{EmailDeliveryStatus, email_delivery_status_eq}
use opsdesk.Schema.{EmailDelivery}
use opsdesk.State.{State, Action}
use opsdesk.Deliveries.{publish_delivery, update_deliveries}
use opsdesk.Deliveries.Worker.{as_pending}

pub record RecoveryResult : Type 0 where
  pub stale_reset : ℕ
  pub pending_found : ℕ
  pub queued : ℕ
  pub queue_failures : ℕ

abbrev pub stale_ms : ℕ
stale_ms = 10 * 60 * 1000

abbrev pub batch : ℕ
batch = 100

-- `lastAttemptAt < now - 10 min`
abbrev attempted_before : Option ℕ → ℕ → Bool
attempted_before none now = false
attempted_before (some t) now = ltb (t + stale_ms) now

abbrev pub is_stale : ℕ → EmailDelivery → Bool
is_stale now d = (d.status == EmailDeliveryStatus.sending) && attempted_before d.last_attempt_at now

abbrev pub is_stale_row : ℕ → ℕ → EmailDelivery → Bool
is_stale_row id now d = (d.id == id) && is_stale now d

unfoldable pub reset_stale : ℕ → EmailDelivery → Action ℕ
reset_stale now d = do
  reset ← gets (λ w. count (is_stale_row d.id now) w.deliveries)
  update_deliveries (is_stale_row d.id now) (as_pending "Recovered stale sending attempt")
  if reset == 1 then (do publish_delivery d EmailDeliveryStatus.pending; pure 1) else pure 0

-- the first loop; `others` runs before each round
unfoldable pub reset_all : (State → State) → ℕ → List EmailDelivery → Action ℕ
unfolding reset_stale
reset_all others now [] = pure 0
reset_all others now (d ∷ ds) = do
  modify others
  one ← reset_stale now d
  rest ← reset_all others now ds
  pure (one + rest)

-- `orderBy: { createdAt: 'asc' }`
insert_by_created : EmailDelivery → List EmailDelivery → List EmailDelivery
insert_by_created d [] = d ∷ []
insert_by_created d (x ∷ xs) =
    if leb d.created_at x.created_at then d ∷ x ∷ xs else x ∷ insert_by_created d xs

unfoldable pub by_created : List EmailDelivery → List EmailDelivery
unfolding insert_by_created
by_created [] = []
by_created (d ∷ ds) = insert_by_created d (by_created ds)

-- the second loop: `accepts` says whether `ensureEmailDeliveryQueued` succeeds
unfoldable pub queue_all : (ℕ → Bool) → List EmailDelivery → Action (ℕ × ℕ)
queue_all accepts [] = pure (0, 0)
queue_all accepts (d ∷ ds) = do
  modify (λ w. record w { queued = if accepts d.id then d.id ∷ w.queued else w.queued })
  counts ← queue_all accepts ds
  pure (if accepts d.id then (counts.0 + 1, counts.1) else (counts.0, counts.1 + 1))

unfoldable pub process_recovery : (State → State) → (ℕ → Bool) → ℕ → Action RecoveryResult
process_recovery others accepts now = do
  stale ← gets (λ w. take batch (find_many (is_stale now) w.deliveries))
  stale_reset ← reset_all others now stale
  modify others
  pending ← gets (λ w.
      take batch
        (by_created (find_many (λ d. d.status == EmailDeliveryStatus.pending) w.deliveries)))
  counts ← queue_all accepts pending
  pure (record {
    stale_reset = stale_reset;
    pending_found = length pending;
    queued = counts.0;
    queue_failures = counts.1;
  })
