-- ===== src/Analytics/Load.antt =====
-- What the members of an organization have to do.
use opsdesk.Base.{
  ltb, if◌then◌else◌, nat_beq_iff, Bool-cases, ◌==◌, ◌!=◌, find_many, count, All, ℕ, ◌+◌, ◌≡◌, refl,
  sym, ap, ◌∙◌, inl, inr, Bool, true, false, ◌&&◌, Option, none, some, List, [], ◌∷◌, map, arith,
  option_eq, nat_eq,
}
use opsdesk.Enums.{
  TicketStatus, ticket_status_eq, ticket_priority_eq, ticket_source_eq, email_delivery_status_eq,
  role_eq, Role,
}
use opsdesk.Schema.{Ticket, Membership}
use opsdesk.Analytics.Groups.{written, pair_eq, group_by}
use opsdesk.Analytics.Workload.{
  Workload, is_active, is_assigned_active, with_count, workload_counts, workload_key,
  build_workload, workload_of,
}
use opsdesk.Analytics.{Query, get_overview, member_rows, member_workloads, workload_groups}
use opsdesk.Analytics.Trends.{AnalyticsRange}
use opsdesk.State.{State}
use opsdesk.Analytics.Grouped.{group_by-find_many, count-find_many}
use opsdesk.Listing.Order.{
  insert_by, order_by, ascending, InOrder, order_by-InOrder, count-order_by,
}
use opsdesk.Analytics.Workload.{MemberWorkload}

-- one group's write, in the map and in the groups
opened_step :
    (b : Bool) (s : TicketStatus) (n h : ℕ) (w v : Workload)
    → w.0 ≡ h
    → (b ≡ true → v ≡ w)
    → (if b then with_count s n v else w).0 ≡ (if b && (TicketStatus.opened == s) then n else h)
opened_step false s n h w v o k = o
opened_step true TicketStatus.opened n h w v o k = refl
opened_step true TicketStatus.pending n h w v o k = ap (λ z. z.0) (k refl) ∙ o
opened_step true TicketStatus.resolved n h w v o k = ap (λ z. z.0) (k refl) ∙ o
opened_step true TicketStatus.closed n h w v o k = ap (λ z. z.0) (k refl) ∙ o

pending_step :
    (b : Bool) (s : TicketStatus) (n h : ℕ) (w v : Workload)
    → w.1 ≡ h
    → (b ≡ true → v ≡ w)
    → (if b then with_count s n v else w).1 ≡ (if b && (TicketStatus.pending == s) then n else h)
pending_step false s n h w v o k = o
pending_step true TicketStatus.opened n h w v o k = ap (λ z. z.1) (k refl) ∙ o
pending_step true TicketStatus.pending n h w v o k = refl
pending_step true TicketStatus.resolved n h w v o k = ap (λ z. z.1) (k refl) ∙ o
pending_step true TicketStatus.closed n h w v o k = ap (λ z. z.1) (k refl) ∙ o

-- the two fields of a member's entry, as the groups of the member have them
workload_counts-written :
    (gs : List ((Option ℕ × TicketStatus) × ℕ)) (f : ℕ → Workload) (h : Option ℕ × TicketStatus → ℕ)
    (m : ℕ)
    → (f m).0 ≡ h (some m, TicketStatus.opened)
    → (f m).1 ≡ h (some m, TicketStatus.pending)
    → ((workload_counts gs f m).0 ≡ written h gs (some m, TicketStatus.opened))
      × ((workload_counts gs f m).1 ≡ written h gs (some m, TicketStatus.pending))
unfolding workload_counts written
workload_counts-written [] f h m o p = (o, p)
workload_counts-written (((none, s), n) ∷ gs) f h m o p = workload_counts-written gs f _ m o p
workload_counts-written (((some j, s), n) ∷ gs) f h m o p =
    workload_counts-written gs _ _ m
      (opened_step (m == j) s n _ (f m) (f j) o (λ e. ap f (sym ((nat_beq_iff m j).0 e))))
      (pending_step (m == j) s n _ (f m) (f j) p (λ e. ap f (sym ((nat_beq_iff m j).0 e))))

-- a ticket of an organization that is assigned to a member and has a status
abbrev pub is_in_work : ℕ → ℕ → TicketStatus → Ticket → Bool
is_in_work org m s t =
    (t.organization_id == org) && (t.assignee_membership_id == some m) && (t.status == s)

count-in_work :
    (org m : ℕ) (s : TicketStatus) (xs : List Ticket)
    → is_active s ≡ true
    → count (λ t. is_assigned_active org t && (workload_key t == (some m, s))) xs
      ≡ count (is_in_work org m s) xs
unfolding count
count-in_work org m s [] h = refl
count-in_work org m s (t ∷ ts) h = ground (arith, count-in_work org m s ts, h)

All-insert_by :
    {A : Type 0} (P : A → Type 0) (before : A → A → Bool) (x : A) (ys : List A)
    → P x
    → All P ys
    → All P (insert_by before x ys)
unfolding insert_by
All-insert_by P before x [] p a = (p, tt)
All-insert_by P before x (y ∷ ys) p a = elim (Bool-cases (before y x)) [
  | inl e ↦ rw e (a.0, All-insert_by P before x ys p a.1)
  | inr e ↦ rw e (p, a)
]

All-order_by :
    {A : Type 0} (P : A → Type 0) (before : A → A → Bool) (xs : List A)
    → All P xs
    → All P (order_by before xs)
unfolding order_by
All-order_by P before [] a = tt
All-order_by P before (x ∷ xs) a =
    All-insert_by P before x (order_by before xs) a.0 (All-order_by P before xs a.1)

All-mapped :
    {A B : Type 0} (P : B → Type 0) (f : A → B) (xs : List A)
    → ((x : A) → P (f x))
    → All P (map f xs)
All-mapped P f [] h = tt
All-mapped P f (x ∷ xs) h = (h x, All-mapped P f xs h)

count-map :
    {A B : Type 0} (f : A → B) (p : B → Bool) (xs : List A)
    → count p (map f xs) ≡ count (λ x. p (f x)) xs
unfolding count
count-map f p [] = refl
count-map f p (x ∷ xs) = rw (count-map f p xs) refl

-- an entry counts the open and the pending tickets of its member
abbrev pub IsCounted : ℕ → List Ticket → MemberWorkload → Type 0
IsCounted org tickets e =
    (e.open_tickets ≡ count (is_in_work org e.membership_id TicketStatus.opened) tickets)
    × (e.pending_tickets ≡ count (is_in_work org e.membership_id TicketStatus.pending) tickets)
    × (e.active_tickets ≡ e.open_tickets + e.pending_tickets)

abbrev pub heavier : MemberWorkload → MemberWorkload → Bool
heavier a b = ltb b.active_tickets a.active_tickets

workload_of-IsCounted :
    (org : ℕ) (tickets : List Ticket) (m : Membership)
    → IsCounted org tickets (
        workload_of
          (workload_counts
            (group_by workload_key (find_many (is_assigned_active org) tickets))
            (λ j. (0, 0)))
          m)
workload_of-IsCounted org tickets m =
    let counted =
      workload_counts-written (group_by workload_key (find_many (is_assigned_active org) tickets))
        (λ j. (0, 0)) (λ k. 0) m.id refl refl in
    let groups = λ (k : Option ℕ × TicketStatus).
      group_by-find_many workload_key (is_assigned_active org) tickets k in
    (
      counted.0
          ∙ groups (some m.id, TicketStatus.opened)
          ∙ count-in_work org m.id TicketStatus.opened tickets refl,
      counted.1
          ∙ groups (some m.id, TicketStatus.pending)
          ∙ count-in_work org m.id TicketStatus.pending tickets refl,
      refl,
    )

-- The workload of an overview has an entry for each member of the organization who is no viewer:
-- whatever is asked of the membership, the role and the user, as many entries have it as such
-- members. Each entry counts the organization's open and pending tickets that are assigned to its
-- membership, and no entry stands behind one with fewer of them.
pub overview_workload :
    (at : Query → State) (org : ℕ) (range : AnalyticsRange) (now : ℕ) (q : ℕ → Role → ℕ → Bool)
    → let o = get_overview at org range now in
      (count (λ e. q e.membership_id e.role e.user_id) o.workload
        ≡ count
            (λ m.
              ((m.organization_id == org) && (m.role != Role.viewer)) && q m.id m.role m.user_id)
            (at member_rows).memberships)
      × All (IsCounted org (at workload_groups).tickets) o.workload
      × InOrder heavier o.workload
unfolding get_overview member_workloads build_workload
overview_workload at org range now q =
    let listed =
      find_many (λ (m : Membership). (m.organization_id == org) && (m.role != Role.viewer))
        (at member_rows).memberships in
    let ordered =
      order_by (ascending (λ (m : Membership). m.created_at) (λ (m : Membership). m.id)) listed in
    let counts =
      workload_counts
        (group_by workload_key (find_many (is_assigned_active org) (at workload_groups).tickets))
        (λ j. (0, 0)) in
    (
      count-order_by heavier (λ e. q e.membership_id e.role e.user_id)
            (map (workload_of counts) ordered)
          ∙ count-map (workload_of counts) (λ e. q e.membership_id e.role e.user_id) ordered
          ∙ count-order_by _ (λ m. q m.id m.role m.user_id) listed
          ∙ count-find_many (λ m. q m.id m.role m.user_id) _ (at member_rows).memberships,
      All-order_by _ heavier (map (workload_of counts) ordered) (
          All-mapped _ (workload_of counts) ordered
            (workload_of-IsCounted org (at workload_groups).tickets)),
      order_by-InOrder heavier (λ x y h. ground (arith, h)) (map (workload_of counts) ordered),
    )
