-- ===== src/Audit/Lists.antt =====
-- `list` of AuditService. `id_of` stands for the ids of the rows, which nothing else reads.
use opsdesk.Base.{
  ltb, leb, if◌then◌else◌, Bool-cases, ◌==◌, length, find_many, Result, bad_request, ok, err, ℕ,
  ◌<◌, ◌≡◌, refl, ◌⊎◌, inl, inr, Bool, true, false, ◌&&◌, Option, some, [], option_eq, nat_eq,
}
use opsdesk.Schema.{audit_action_eq, audit_entity_type_eq, AuditLog, AuditAction, AuditEntityType}
use opsdesk.State.{State}
use opsdesk.Listing.{Page, paginate}
use opsdesk.Listing.Filters.{where_given}
use opsdesk.Listing.Order.{descending, order_by, descending-Asymmetric}
use opsdesk.Listing.Pages.{Walked, follow, follow-Walked}

pub record ListAuditLogsOptions : Type 0 where
  pub page : ℕ
  pub limit : ℕ
  pub action : Option AuditAction
  pub entity_type : Option AuditEntityType
  pub entity_id : Option ℕ
  pub actor_user_id : Option ℕ
  pub from_date : Option ℕ
  pub to_date : Option ℕ

-- `from && to && new Date(from) > new Date(to)`
abbrev pub is_reversed : Option ℕ → Option ℕ → Bool
is_reversed (some from_date) (some to_date) = ltb to_date from_date
is_reversed _ _ = false

-- `where`
unfoldable pub is_listed : ℕ → ListAuditLogsOptions → AuditLog → Bool
is_listed org o l =
    (l.organization_id == org)
    && where_given o.action (λ a. l.action == a)
    && where_given o.entity_type (λ e. l.entity_type == e)
    && where_given o.entity_id (λ e. l.entity_id == some e)
    && where_given o.actor_user_id (λ u. l.actor_user_id == some u)
    && where_given o.from_date (λ d. leb d l.created_at)
    && where_given o.to_date (λ d. leb l.created_at d)

abbrev pub log_order : (AuditLog → ℕ) → AuditLog → AuditLog → Bool
log_order id_of = descending (λ l. l.created_at) id_of

unfoldable pub list : (AuditLog → ℕ) → ℕ → ListAuditLogsOptions → State → Result (Page AuditLog)
list id_of org o w =
    if is_reversed o.from_date o.to_date
    then err (bad_request "`from` must be before `to`")
    else ok (
        paginate o.page o.limit
          (order_by (log_order id_of) (find_many (is_listed org o) w.audit_logs)))

-- the page of an answer, an empty last one where it throws
abbrev pub or_empty : {A : Type 0} → ℕ → Result (Page A) → Page A
or_empty page (ok p) = p
or_empty page (err e) = paginate page 1 []

-- Whoever follows `hasNextPage` from the first page comes to an end and has then every log of the
-- organization that matches, each once, the newest first, if none is written meanwhile; where the
-- period ends before it begins, the list throws instead.
pub list_audit_logs_walk :
    (id_of : AuditLog → ℕ) (org : ℕ) (o : ListAuditLogsOptions) (w : State) (fuel : ℕ)
    → 0 < o.limit
    → length (find_many (is_listed org o) w.audit_logs) < fuel
    → ((is_reversed o.from_date o.to_date ≡ true)
        × (list id_of org o w ≡ err (bad_request "`from` must be before `to`")))
      ⊎ (is_reversed o.from_date o.to_date ≡ false)
        × Walked
            (log_order id_of)
            (find_many (is_listed org o) w.audit_logs)
            (follow fuel (λ page. or_empty page (list id_of org (record o { page = page }) w)) 1)
unfolding list is_listed
list_audit_logs_walk id_of org o w fuel h enough =
    elim (Bool-cases (is_reversed o.from_date o.to_date)) [
      | inl e ↦ inl (e, rw e refl)
      | inr e ↦ inr (
        e,
        rw e (
            follow-Walked (log_order id_of) (find_many (is_listed org o) w.audit_logs) o.limit fuel
              (descending-Asymmetric (λ (l : AuditLog). l.created_at) id_of) h enough),
      )
    ]
