-- ===== src/Tests/JobQueue.antt =====
-- A queue whose jobs are a function of their ids.
use opsdesk.Base.{
  if◌then◌else◌, nat_beq_iff, Bool-cases, ◌==◌, beq_refl, ℕ, ◌≡◌, refl, ◌≢◌, inl, inr, Option, none,
  some, arith, nat_eq,
}
use opsdesk.JobQueue.{JobState, Queue, ensure_email_delivery_queued}
use opsdesk.JobQueue.Ensured.{IsPending, ensure_email_delivery_queued-IsPending}

abbrev Table : Type 0
Table = ℕ → Option JobState

abbrev put : Option JobState → ℕ → Table → Table
put s id q i = if i == id then s else q i

put_there : (s : Option JobState) (q : Table) (id : ℕ) → put s id q id ≡ s
put_there s q id = rw (beq_refl id) refl

put_other :
    (s : Option JobState) (q : Table) (id other : ℕ) → other ≢ id → put s id q other ≡ q other
put_other s q id other n = elim (Bool-cases (other == id)) [
  | inl e ↦ absurd (n ((nat_beq_iff other id).0 e))
  | inr e ↦ rw e refl
]

abbrev table_queue : Queue
table_queue = record {
  Jobs = Table;
  state_of = λ q id. q id;
  retry = put (some JobState.waiting);
  remove = put none;
  add = put (some JobState.waiting);
  retried = λ q id h. put_there (some JobState.waiting) q id;
  removed = λ q id h. put_there none q id;
  added = λ q id h. put_there (some JobState.waiting) q id;
  retry_other = put_other (some JobState.waiting);
  remove_other = put_other none;
  add_other = put_other (some JobState.waiting);
}

-- job 1 completed, though the delivery needs work
abbrev stale : Table
stale = put (some JobState.completed) 1 (λ i. none)

run_again : ensure_email_delivery_queued table_queue 1 stale 1 ≡ some JobState.waiting
unfolding ensure_email_delivery_queued
run_again = refl

ensure_email_delivery_queued-IsPending_example :
    let q = ensure_email_delivery_queued table_queue 1 stale in
    IsPending (q 1) × (q 2 ≡ none) × (ensure_email_delivery_queued table_queue 1 q ≡ q)
ensure_email_delivery_queued-IsPending_example =
    ensure_email_delivery_queued-IsPending table_queue 1 stale 2 (omega arith)
