-- ===== src/Tests/Sample.antt =====
-- A small workspace: organization 1 has an owner, an admin, an agent and a viewer; organization 2
-- has an owner.
use opsdesk.Base.{ℕ, List, [], ◌∷◌}
use opsdesk.Enums.{Role}
use opsdesk.Schema.{Membership}
use opsdesk.State.{TenantContext, State}

abbrev member : ℕ → ℕ → ℕ → Role → Membership
member id user org role = record {
  id = id;
  user_id = user;
  organization_id = org;
  role = role;
  created_at = 0;
  updated_at = 0;
}

abbrev pub as_tenant : Membership → TenantContext
as_tenant m = record {
  user_id = m.user_id;
  organization_id = m.organization_id;
  membership_id = m.id;
  role = m.role;
}

abbrev pub ann : Membership
ann = member 11 1 1 Role.owner

abbrev pub bob : Membership
bob = member 12 2 1 Role.admin

abbrev pub cat : Membership
cat = member 13 3 1 Role.agent

abbrev pub dan : Membership
dan = member 14 4 1 Role.viewer

abbrev pub eve : Membership
eve = member 21 5 2 Role.owner

abbrev pub team : List Membership
team = ann ∷ bob ∷ cat ∷ dan ∷ eve ∷ []

abbrev pub empty : State
empty = record {
  organizations = [];
  users = [];
  memberships = [];
  invitations = [];
  customers = [];
  tickets = [];
  tags = [];
  ticket_tags = [];
  messages = [];
  attachments = [];
  webhook_events = [];
  deliveries = [];
  audit_logs = [];
  published = [];
  queued = [];
  deleted_objects = [];
}

abbrev pub workspace : State
workspace = record empty { memberships = team }
