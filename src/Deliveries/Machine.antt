-- ===== src/Deliveries/Machine.antt =====
-- The life of an email delivery: the diagram of its statuses, and what "evolves" means for the table.
use native.Mathlib.Nat.{le_trans}
use opsdesk.Base.{
  nat_beq, if◌then◌else◌, Bool-cases, find_first, update_many, find_first-update_many, Preorder, ℕ,
  ◌≤◌, ◌≡◌, refl, sym, ap, subst, ◌∙◌, inl, inr, Bool, true, some, List, arith,
}
use opsdesk.Enums.{EmailDeliveryStatus}
use opsdesk.Schema.{EmailDelivery}
use opsdesk.Deliveries.{is_delivery}
use opsdesk.State.{State}

-- Statuses that can still change.
pub data InFlight : EmailDeliveryStatus → Type 0 where
  pending_flight : InFlight EmailDeliveryStatus.pending
  sending_flight : InFlight EmailDeliveryStatus.sending
  sent_flight : InFlight EmailDeliveryStatus.sent
  delayed_flight : InFlight EmailDeliveryStatus.delayed

-- The ways to end without delivery.
pub data HasFailed : EmailDeliveryStatus → Type 0 where
  by_bounce : HasFailed EmailDeliveryStatus.bounced
  by_complaint : HasFailed EmailDeliveryStatus.complained
  by_suppression : HasFailed EmailDeliveryStatus.suppressed
  by_error : HasFailed EmailDeliveryStatus.failed

infix 40 ◌⟶◌ ◌⟶*◌
pub data ◌⟶◌ : EmailDeliveryStatus → EmailDeliveryStatus → Type 0 where
  claim : EmailDeliveryStatus.pending ⟶ EmailDeliveryStatus.sending
  give_back : EmailDeliveryStatus.sending ⟶ EmailDeliveryStatus.pending
  hand_over : EmailDeliveryStatus.sending ⟶ EmailDeliveryStatus.sent
  send_unclaimed : EmailDeliveryStatus.pending ⟶ EmailDeliveryStatus.sent
  delay : {s : EmailDeliveryStatus} → InFlight s → s ⟶ EmailDeliveryStatus.delayed
  deliver : {s : EmailDeliveryStatus} → InFlight s → s ⟶ EmailDeliveryStatus.delivered
  fail : {s t : EmailDeliveryStatus} → InFlight s → HasFailed t → s ⟶ t

pub data ◌⟶*◌ : EmailDeliveryStatus → EmailDeliveryStatus → Type 0 where
  here : {s : EmailDeliveryStatus} → s ⟶* s
  next : {s t u : EmailDeliveryStatus} → s ⟶* t → t ⟶ u → s ⟶* u

pub ⟶*-trans : {s t u : EmailDeliveryStatus} → s ⟶* t → t ⟶* u → s ⟶* u
⟶*-trans p here = p
⟶*-trans p (next q st) = next (⟶*-trans p q) st

-- a step starts in flight
step-InFlight : {s t : EmailDeliveryStatus} → s ⟶ t → InFlight s
step-InFlight claim = pending_flight
step-InFlight give_back = sending_flight
step-InFlight hand_over = sending_flight
step-InFlight send_unclaimed = pending_flight
step-InFlight (delay f) = f
step-InFlight (deliver f) = f
step-InFlight (fail f h) = f

-- a status from which nothing starts is kept for ever
pub final_stays : {s t : EmailDeliveryStatus} → s ⟶* t → ¬ InFlight s → t ≡ s
final_stays here h = refl
final_stays {s} (next {t = m} p st) h =
    let back : m ≡ s = final_stays p h in absurd (h (subst InFlight back (step-InFlight st)))

-- What may become of one delivery: its identity and recipient stay, attempts only add up, the
-- status follows the diagram.
pub record RowEvolves (d d' : EmailDelivery) : Type 0 where
  pub same_id : d'.id ≡ d.id
  pub same_organization : d'.organization_id ≡ d.organization_id
  pub same_ticket : d'.ticket_id ≡ d.ticket_id
  pub same_message : d'.message_id ≡ d.message_id
  pub same_recipient : d'.recipient_email ≡ d.recipient_email
  pub attempts : d.attempt_count ≤ d'.attempt_count
  pub reaches : d.status ⟶* d'.status

-- identity, recipient and attempts, as one fact
abbrev pub SameDelivery : EmailDelivery → EmailDelivery → Type 0
SameDelivery d d' =
    (d'.id ≡ d.id)
    × (d'.organization_id ≡ d.organization_id)
    × (d'.ticket_id ≡ d.ticket_id)
    × (d'.message_id ≡ d.message_id)
    × (d'.recipient_email ≡ d.recipient_email)
    × (d.attempt_count ≤ d'.attempt_count)

-- one step of the diagram from the status that a test selected
pub one_step :
    (d d' : EmailDelivery) (s : EmailDeliveryStatus)
    → SameDelivery d d'
    → d.status ≡ s
    → s ⟶ d'.status
    → RowEvolves d d'
one_step d d' s same at step = record {
  same_id = same.0;
  same_organization = same.1;
  same_ticket = same.2;
  same_message = same.3;
  same_recipient = same.4;
  attempts = same.5;
  reaches = subst (λ r. r ⟶* d'.status) (sym at) (next here step);
}

pub RowEvolves-refl : (d : EmailDelivery) → RowEvolves d d
RowEvolves-refl d = record {
  same_id = refl;
  same_organization = refl;
  same_ticket = refl;
  same_message = refl;
  same_recipient = refl;
  attempts = omega arith;
  reaches = here;
}

pub RowEvolves-trans : {c d e : EmailDelivery} → RowEvolves c d → RowEvolves d e → RowEvolves c e
RowEvolves-trans p q = record {
  same_id = q.same_id ∙ p.same_id;
  same_organization = q.same_organization ∙ p.same_organization;
  same_ticket = q.same_ticket ∙ p.same_ticket;
  same_message = q.same_message ∙ p.same_message;
  same_recipient = q.same_recipient ∙ p.same_recipient;
  attempts = le_trans p.attempts q.attempts;
  reaches = ⟶*-trans p.reaches q.reaches;
}

-- Every delivery of the first table is in the second, evolved.
pub record TableEvolves (xs ys : List EmailDelivery) : Type 0 where
  pub at_id :
      (id : ℕ) (d : EmailDelivery)
      → find_first (is_delivery id) xs ≡ some d
      → (d' : EmailDelivery) × (find_first (is_delivery id) ys ≡ some d') × RowEvolves d d'

pub TableEvolves-refl : (xs : List EmailDelivery) → TableEvolves xs xs
TableEvolves-refl xs = record { at_id = λ id d h. (d, h, RowEvolves-refl d) }

pub TableEvolves-trans :
    {xs ys zs : List EmailDelivery} → TableEvolves xs ys → TableEvolves ys zs → TableEvolves xs zs
TableEvolves-trans p q = record {
  at_id = λ id d h.
      let (d', h', r) = p.at_id id d h in
      let (d'', h'', r') = q.at_id id d' h' in (d'', h'', RowEvolves-trans r r');
}

changed_or_kept :
    (p : EmailDelivery → Bool) (f : EmailDelivery → EmailDelivery)
    → ((x : EmailDelivery) → p x ≡ true → RowEvolves x (f x))
    → (d : EmailDelivery) → RowEvolves d (if p d then f d else d)
changed_or_kept p f keep d = elim (Bool-cases (p d)) [
  | inl e ↦ rw e (keep d e)
  | inr e ↦ rw e (RowEvolves-refl d)
]

pub TableEvolves-update :
    (p : EmailDelivery → Bool) (f : EmailDelivery → EmailDelivery) (xs : List EmailDelivery)
    → ((x : EmailDelivery) → p x ≡ true → RowEvolves x (f x))
    → TableEvolves xs (update_many p f xs)
TableEvolves-update p f xs keep = record {
  at_id = λ id d h. (
    (if p d then f d else d),
    rw (
      find_first-update_many (is_delivery id) p f xs
          (λ x e. ap (λ k. nat_beq k id) (keep x e).same_id),
      h,
    ),
    changed_or_kept p f keep d,
  );
}

abbrev pub Evolves : State → State → Type 0
Evolves w w' = TableEvolves w.deliveries w'.deliveries

pub Evolves-Preorder : Preorder Evolves
Evolves-Preorder = record {
  reflexive = λ w. TableEvolves-refl w.deliveries;
  transitive = λ u v w p q. TableEvolves-trans p q;
}
