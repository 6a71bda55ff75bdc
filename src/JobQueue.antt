-- ===== src/JobQueue.antt =====
-- ensureEmailDeliveryQueued of apps/api/src/jobs/jobs.service.ts. The queue library is an interface:
-- its operations and what its documentation says of them.
pub mod Ensured
use opsdesk.Base.{ℕ, ◌≡◌, ◌≢◌, Option, none, some}

pub data JobState : Type 0 where
  waiting active delayed completed failed : JobState

-- The jobs of one queue by id, here the id of a delivery. `getJob` and `getState` read the same jobs.
pub record Queue : Type 1 where
  pub Jobs : Type 0
  pub state_of : Jobs → ℕ → Option JobState
  pub retry : ℕ → Jobs → Jobs
  pub remove : ℕ → Jobs → Jobs
  pub add : ℕ → Jobs → Jobs
  -- a failed job that is retried waits again
  pub retried :
      (q : Jobs) (id : ℕ) → state_of q id ≡ some failed → state_of (retry id q) id ≡ some waiting
  -- a job that is not active can be removed
  pub removed : (q : Jobs) (id : ℕ) → state_of q id ≢ some active → state_of (remove id q) id ≡ none
  -- a new job waits
  pub added : (q : Jobs) (id : ℕ) → state_of q id ≡ none → state_of (add id q) id ≡ some waiting
  pub retry_other :
      (q : Jobs) (id other : ℕ) → other ≢ id → state_of (retry id q) other ≡ state_of q other
  pub remove_other :
      (q : Jobs) (id other : ℕ) → other ≢ id → state_of (remove id q) other ≡ state_of q other
  pub add_other :
      (q : Jobs) (id other : ℕ) → other ≢ id → state_of (add id q) other ≡ state_of q other

module _ (queue : Queue) where
  abbrev pub ensure_at : ℕ → Option JobState → queue.Jobs → queue.Jobs
  ensure_at id none q = queue.add id q
  ensure_at id (some failed) q = queue.retry id q
  ensure_at id (some completed) q = queue.add id (queue.remove id q)
  ensure_at id (some _) q = q

  unfoldable pub ensure_email_delivery_queued : ℕ → queue.Jobs → queue.Jobs
  ensure_email_delivery_queued id q = ensure_at id (queue.state_of q id) q
