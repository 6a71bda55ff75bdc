-- ===== src/JobQueue/Ensured.antt =====
-- What is in the queue after a delivery was handed to it.
use opsdesk.Base.{ℕ, ◌≡◌, refl, sym, ◌∙◌, ◌≢◌, Option, none, some, arith}
use opsdesk.JobQueue.{JobState, Queue, ensure_at, ensure_email_delivery_queued}

-- the job is still to run, or runs
abbrev pub IsPending : Option JobState → Type 0
IsPending (some JobState.waiting) = Unit
IsPending (some JobState.active) = Unit
IsPending (some JobState.delayed) = Unit
IsPending _ = ⊥

module _ (queue : Queue) where
  ensure_at-IsPending :
      (id : ℕ) (q : queue.Jobs) (s : Option JobState)
      → queue.state_of q id ≡ s
      → IsPending (queue.state_of (ensure_at queue id s q) id)
  ensure_at-IsPending id q none e = rw (queue.added q id e) tt
  ensure_at-IsPending id q (some JobState.failed) e = rw (queue.retried q id e) tt
  ensure_at-IsPending id q (some JobState.completed) e =
      rw (queue.added (queue.remove id q) id (queue.removed q id (λ a. ground (arith, sym e ∙ a))))
        tt
  ensure_at-IsPending id q (some JobState.waiting) e = rw e tt
  ensure_at-IsPending id q (some JobState.active) e = rw e tt
  ensure_at-IsPending id q (some JobState.delayed) e = rw e tt

  others_kept :
      (id : ℕ) (q : queue.Jobs) (s : Option JobState) (other : ℕ)
      → other ≢ id
      → queue.state_of (ensure_at queue id s q) other ≡ queue.state_of q other
  others_kept id q none other n = queue.add_other q id other n
  others_kept id q (some JobState.failed) other n = queue.retry_other q id other n
  others_kept id q (some JobState.completed) other n =
      queue.add_other (queue.remove id q) id other n ∙ queue.remove_other q id other n
  others_kept id q (some JobState.waiting) other n = refl
  others_kept id q (some JobState.active) other n = refl
  others_kept id q (some JobState.delayed) other n = refl

  ensure_at_kept :
      (id : ℕ) (q : queue.Jobs) (s : Option JobState) → IsPending s → ensure_at queue id s q ≡ q
  ensure_at_kept id q none h = elim h [ ]
  ensure_at_kept id q (some JobState.completed) h = elim h [ ]
  ensure_at_kept id q (some JobState.failed) h = elim h [ ]
  ensure_at_kept id q (some JobState.waiting) h = refl
  ensure_at_kept id q (some JobState.active) h = refl
  ensure_at_kept id q (some JobState.delayed) h = refl

  -- After the call the delivery has a job that waits, runs or is delayed, every other job is as
  -- before, and a second call changes nothing.
  pub ensure_email_delivery_queued-IsPending :
      (id : ℕ) (q : queue.Jobs) (other : ℕ)
      → other ≢ id
      → let q' = ensure_email_delivery_queued queue id q in
        IsPending (queue.state_of q' id)
        × (queue.state_of q' other ≡ queue.state_of q other)
        × (ensure_email_delivery_queued queue id q' ≡ q')
  unfolding ensure_email_delivery_queued
  ensure_email_delivery_queued-IsPending id q other n =
      let pending = ensure_at-IsPending id q (queue.state_of q id) refl in
      (pending, others_kept id q (queue.state_of q id) other n, ensure_at_kept id _ _ pending)
