-- ===== src/Tags.antt =====
-- TagsService.create of apps/api/src/tags/tags.service.ts. `trim_lower` stands for
-- `trim().toLowerCase()`, `others` for what other requests commit after the lookup.
pub mod Names
use opsdesk.Base.{
  ◌==◌, find_first, any, pure, gets, transaction, modify, reject, is_none, Failure, Result,
  conflict, unique_violation, err, ℕ, String, Bool, not, ◌&&◌, [], ◌∷◌, ◌>>=◌, ◌>>◌, string_eq,
  nat_eq,
}
use opsdesk.Schema
use opsdesk.Schema.{Tag}
use opsdesk.State.{TenantContext, State, Action}
use opsdesk.Audit.{record_for_tenant}

-- the key of a tag, unique in its table
abbrev pub is_named : ℕ → String → Tag → Bool
is_named org normalized g = (g.organization_id == org) && (g.normalized_name == normalized)

abbrev pub new_tag : ℕ → String → String → ℕ → ℕ → Tag
new_tag org name normalized id now = record {
  id = id;
  organization_id = org;
  name = name;
  normalized_name = normalized;
  created_at = now;
}

abbrev pub exists_already : Failure
exists_already = conflict "A tag with this name already exists"

-- the transaction, where a second row under the key is a unique violation
unfoldable pub write_tag : TenantContext → String → String → ℕ → ℕ → Action Tag
unfolding record_for_tenant
write_tag tenant name normalized id now = transaction (do
  taken ← gets (λ w. any (is_named tenant.organization_id normalized) w.tags)
  reject taken unique_violation
  modify (λ w. record w { tags = new_tag tenant.organization_id name normalized id now ∷ w.tags })
  record_for_tenant tenant Schema.tag_created Schema.tag id [] now
  pure (new_tag tenant.organization_id name normalized id now))

-- the `catch` block
unfoldable pub name_conflict : Result Tag → Result Tag
name_conflict (err unique_violation) = err exists_already
name_conflict r = r

unfoldable pub try_write_tag : TenantContext → String → String → ℕ → ℕ → Action Tag
unfolding write_tag name_conflict
try_write_tag tenant name normalized id now w =
    let (r, w') = write_tag tenant name normalized id now w in (name_conflict r, w')

unfoldable pub create :
    (trim_lower : String → String) (others : State → State) (tenant : TenantContext) (name : String)
    (id now : ℕ)
    → Action Tag
unfolding try_write_tag
create trim_lower others tenant name id now = do
  existing ← gets (λ w. find_first (is_named tenant.organization_id (trim_lower name)) w.tags)
  reject (not (is_none existing)) exists_already
  modify others
  try_write_tag tenant name (trim_lower name) id now
