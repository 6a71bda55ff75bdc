-- ===== src/Tests/Invitations.antt =====
-- Invitations.
use opsdesk.Base.{
  ◌==◌, find_first, find_many, count, update_many, All, Failure, ok, err, ◌≤◌, String, ◌≡◌, refl,
  ◌≢◌, ◌⊎◌, inl, ◌&&◌, none, some, [], ◌∷◌, arith, string_eq, option_eq, nat_eq,
}
use opsdesk.Enums.{Role}
use opsdesk.Schema.{Invitation, Membership}
use opsdesk.State.{State}
use opsdesk.Tests.Sample.{as_tenant, ann, bob, workspace}
use opsdesk.Invitations.{
  create, accept, cancel, is_pending_for, check_acceptance, get_status, assert_role_allowed,
  write_cancellation,
}
use opsdesk.Invitations.Acceptance.{accept_outcome, Accepted}
use opsdesk.Invitations.SingleUse.{accept_once}
use opsdesk.Invitations.Issuing.{create_outcome, Issued, create_one_pending}
use opsdesk.Invitations.Cancellation.{Exclusive, cancel-Exclusive}

abbrev same : String → String
same s = s

abbrev invitation : Invitation
invitation = record {
  id = 1;
  organization_id = 1;
  email = "fay@example.com";
  role = Role.agent;
  token_hash = "t1";
  invited_by_user_id = 2;
  accepted_by_user_id = none;
  expires_at = 100;
  accepted_at = none;
  canceled_at = none;
  created_at = 0;
  updated_at = 0;
}

abbrev inviting : State
inviting = record workspace { invitations = invitation ∷ [] }

-- user 6 accepts
abbrev accepted_by_fay : State → State
accepted_by_fay w = (accept same same same 6 "fay@example.com" "t1" 15 7 w).1

accept_outcome_example :
    ((e : Failure) × (accept same same same 6 "fay@example.com" "t1" 15 7 inviting
        ≡ (err e, inviting)))
    ⊎ ((i : Invitation) × Accepted same same same 6 "fay@example.com" "t1" 15 7 inviting i)
accept_outcome_example = accept_outcome same same same 6 "fay@example.com" "t1" 15 7 inviting

abbrev fay : Membership
fay = record {
  id = 15;
  user_id = 6;
  organization_id = 1;
  role = Role.agent;
  created_at = 7;
  updated_at = 7;
}

fay_joins : (accept same same same 6 "fay@example.com" "t1" 15 7 inviting).0 ≡ ok fay
unfolding accept find_first check_acceptance count update_many
fay_joins = refl

accept_once_example :
    (e : Failure) × (accept same same same 7 "gus@example.com" "t1" 16 8 (accepted_by_fay inviting)
      ≡ (err e, accepted_by_fay inviting))
accept_once_example =
    accept_once same same same 6 "fay@example.com" "t1" 15 7 inviting 7 "gus@example.com" 16 8
      fay_joins

create_outcome_example :
    ((e : Failure) × (create same same same
          (as_tenant bob)
          "gus@example.com"
          Role.viewer
          "t2"
          2
          9
          inviting
        ≡ (err e, inviting)))
    ⊎ Issued same same same (as_tenant bob) "gus@example.com" Role.viewer "t2" 2 9 inviting
create_outcome_example =
    create_outcome same same same (as_tenant bob) "gus@example.com" Role.viewer "t2" 2 9 inviting

one_before : count (is_pending_for 1 "fay@example.com" 9) inviting.invitations ≤ 1
unfolding count
one_before = omega arith

create_one_pending_example :
    count
      (is_pending_for 1 "fay@example.com" 9)
      (create same same same
        (as_tenant bob)
        "gus@example.com"
        Role.viewer
        "t2"
        2
        9
        inviting).1.invitations
    ≤ 1
create_one_pending_example =
    create_one_pending same same same (as_tenant bob) "gus@example.com" Role.viewer "t2" 2 9
      inviting 1 "fay@example.com" one_before

cancel-Exclusive_example :
    All Exclusive (cancel (λ s. s) (as_tenant ann) 1 8 inviting).1.invitations
cancel-Exclusive_example = cancel-Exclusive (as_tenant ann) 1 8 inviting (tt, tt) (inl refl, tt)

-- An acceptance between the read and the update of a cancellation is overwritten: the invitation
-- is then both accepted and canceled, though the user is a member.
overtaken :
    find_many
      (λ i. (i.accepted_at == some 7) && (i.canceled_at == some 8))
      (cancel accepted_by_fay (as_tenant ann) 1 8 inviting).1.invitations
    ≢ []
unfolding cancel accept find_first find_many check_acceptance count update_many assert_role_allowed
    write_cancellation get_status
overtaken h = absurd (ground (arith, h))
