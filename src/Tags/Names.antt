-- ===== src/Tags/Names.antt =====
-- Tags have different names.
use opsdesk.Base.{
  Bool-cases, ◌==◌, find_first, any, is_none, Result, conflict, ok, err, ℕ, String, ◌≡◌, refl, ◌⊎◌,
  inl, inr, Bool, true, false, not, ◌&&◌, some, List, [], ◌∷◌, string_eq, nat_eq,
}
use opsdesk.Schema
use opsdesk.Schema.{Tag, AuditLog}
use opsdesk.State.{TenantContext, State}
use opsdesk.Audit.{record_for_tenant}
use opsdesk.Tags.{create, is_named, write_tag, try_write_tag, name_conflict}

-- the organization has a tag whose normalized name is the text
abbrev pub has_tag : ℕ → String → State → Bool
has_tag org normalized w =
    any (λ g. (g.organization_id == org) && (g.normalized_name == normalized)) w.tags

found_any : {A : Type 0} (p : A → Bool) (xs : List A) → not (is_none (find_first p xs)) ≡ any p xs
unfolding find_first
found_any p [] = refl
found_any p (x ∷ xs) = elim (Bool-cases (p x)) [ inl e ↦ rw e | inr e ↦ rw (e, found_any p xs) ]

found_named :
    (org : ℕ) (normalized : String) (w : State)
    → not (is_none (find_first (is_named org normalized) w.tags)) ≡ has_tag org normalized w
found_named org normalized w = found_any (is_named org normalized) w.tags

-- A call ends in one of three ways: the organization had a tag with the normalized name at the
-- lookup, and the call is a conflict that writes nothing; or it had none then but has one when the
-- call writes, and the call is the same conflict and leaves what the others wrote; or it had none at
-- either time, and the call returns the tag, which is added with one audit row.
pub create_tag_outcome :
    (trim_lower : String → String) (others : State → State) (tenant : TenantContext) (name : String)
    (id now : ℕ) (w : State)
    → let org = tenant.organization_id in
      let key = trim_lower name in
      let tag : Tag = record {
        id = id;
        organization_id = org;
        name = name;
        normalized_name = key;
        created_at = now;
      } in
      let row : AuditLog = record {
        organization_id = org;
        actor_user_id = some tenant.user_id;
        actor_membership_id = some tenant.membership_id;
        actor_role = some tenant.role;
        action = Schema.tag_created;
        entity_type = Schema.tag;
        entity_id = some id;
        metadata = [];
        created_at = now;
      } in
      let refusal : Result Tag = err (conflict "A tag with this name already exists") in
      ((has_tag org key w ≡ true) × (create trim_lower others tenant name id now w ≡ (refusal, w)))
      ⊎ ((has_tag org key w ≡ false)
          × (has_tag org key (others w) ≡ true)
          × (create trim_lower others tenant name id now w ≡ (refusal, others w)))
      ⊎ ((has_tag org key w ≡ false)
          × (has_tag org key (others w) ≡ false)
          × (create trim_lower others tenant name id now w ≡ (
            ok tag,
            record (others w) {
              tags = tag ∷ (others w).tags;
              audit_logs = row ∷ (others w).audit_logs;
            },
          )))
unfolding create try_write_tag write_tag name_conflict record_for_tenant
create_tag_outcome trim_lower others tenant name id now w =
    elim (Bool-cases (has_tag tenant.organization_id (trim_lower name) w)) [
      | inl e ↦ inl (e, rw (found_named, e) refl)
      | inr e ↦ elim (Bool-cases (has_tag tenant.organization_id (trim_lower name) (others w))) [
        | inl t ↦ inr (inl (e, t, rw (found_named, e, t) refl))
        | inr t ↦ inr (inr (e, t, rw (found_named, e, t) refl))
      ]
    ]
