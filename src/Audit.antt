-- ===== src/Audit.antt =====
-- AuditService.record and recordForTenant of apps/api/src/audit/audit.service.ts: one row appended
-- to the audit log, inside the transaction of the caller.
pub mod Lists
use opsdesk.Base.{modify, ℕ, String, Option, some, List, ◌∷◌}
use opsdesk.Enums.{Role}
use opsdesk.Schema.{AuditAction, AuditEntityType, AuditLog, MetadataValue}
use opsdesk.State.{TenantContext, Action}

abbrev pub Metadata : Type 0
Metadata = List (String × MetadataValue)

pub record RecordAuditInput : Type 0 where
  pub organization_id : ℕ
  pub actor_user_id : Option ℕ
  pub actor_membership_id : Option ℕ
  pub actor_role : Option Role
  pub action : AuditAction
  pub entity_type : AuditEntityType
  pub entity_id : Option ℕ
  pub metadata : Metadata

abbrev audit_row : RecordAuditInput → ℕ → AuditLog
audit_row i now = record {
  organization_id = i.organization_id;
  actor_user_id = i.actor_user_id;
  actor_membership_id = i.actor_membership_id;
  actor_role = i.actor_role;
  action = i.action;
  entity_type = i.entity_type;
  entity_id = i.entity_id;
  metadata = i.metadata;
  created_at = now;
}

unfoldable pub record_audit : RecordAuditInput → ℕ → Action Unit
record_audit input now = modify (λ w. record w { audit_logs = audit_row input now ∷ w.audit_logs })

unfoldable pub record_for_tenant :
    TenantContext → AuditAction → AuditEntityType → ℕ → Metadata → ℕ → Action Unit
unfolding record_audit
record_for_tenant tenant action entity_type entity_id metadata now =
    record_audit
      (record {
        organization_id = tenant.organization_id;
        actor_user_id = some tenant.user_id;
        actor_membership_id = some tenant.membership_id;
        actor_role = some tenant.role;
        action = action;
        entity_type = entity_type;
        entity_id = some entity_id;
        metadata = metadata;
      })
      now
