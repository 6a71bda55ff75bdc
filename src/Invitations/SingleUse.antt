-- ===== src/Invitations/SingleUse.antt =====
-- An invitation admits one user, once.
use opsdesk.Base.{
  find_first, find_first-update_many, Failure, ok, err, ℕ, String, ◌≡◌, refl, sym, subst, ◌∙◌, ◌≢◌,
  ◌↔◌, inl, inr, true, some, arith,
}
use mathlib.Core.Option.{some-injective}
use opsdesk.Schema.{Invitation, Membership}
use opsdesk.State.{State}
use opsdesk.Invitations.{
  accept, is_pending, may_claim, with_acceptance, get_status, InvitationStatus, record_acceptance,
}
use opsdesk.Invitations.Acceptance.{has_hash, after_accept, accept_outcome, Accepted}

pending_iff :
    (i : Invitation) (now : ℕ)
    → (get_status i now ≡ InvitationStatus.pending) ↔ (is_pending now i ≡ true)
unfolding get_status
pending_iff i now = ground arith

accepted_not_pending :
    (user_id now later : ℕ) (i : Invitation)
    → get_status (with_acceptance user_id now i) later ≢ InvitationStatus.pending
unfolding get_status
accepted_not_pending user_id now later i h = absurd (ground (arith, h))

claimed : (now : ℕ) (i : Invitation) → is_pending now i ≡ true → may_claim i.id now i ≡ true
claimed now i h = rw h (ground arith)

module _ (hash trim lower : String → String) (user_id : ℕ) (email token : String)
    (membership_id now : ℕ) (w : State) where
  found_after :
      (i : Invitation)
      → Accepted hash trim lower user_id email token membership_id now w i
      → find_first
          (has_hash (hash token))
          (after_accept hash trim lower user_id email token membership_id now w i).invitations
        ≡ some (with_acceptance user_id now i)
  unfolding record_acceptance
  found_after i a = rw (
    find_first-update_many (has_hash (hash token)) (may_claim i.id now)
        (with_acceptance user_id now) w.invitations (λ x _. refl),
    a.was_found,
    claimed now i ((pending_iff i now).0 a.was_pending),
  )

  -- After a call that returned, every call with the same token throws and writes nothing, whoever
  -- makes it and whenever.
  pub accept_once :
      {m : Membership} (user_id' : ℕ) (email' : String) (membership_id' later : ℕ)
      → (accept hash trim lower user_id email token membership_id now w).0 ≡ ok m
      → let w' = (accept hash trim lower user_id email token membership_id now w).1 in
        (e : Failure) × (accept hash trim lower user_id' email' token membership_id' later w'
          ≡ (err e, w'))
  accept_once user_id' email' membership_id' later returned =
      elim (accept_outcome hash trim lower user_id email token membership_id now w) [
        | inl (e, r) ↦ absurd (ground (arith, returned, r))
        | inr (i, a) ↦
            rw a.result
              (elim (accept_outcome hash trim lower user_id' email' token membership_id' later
                (after_accept hash trim lower user_id email token membership_id now w i)) [
                  | inl again ↦ again
                  | inr (j, b) ↦
                      let same : with_acceptance user_id now i ≡ j =
                        some-injective _ _ (sym (found_after i a) ∙ b.was_found) in
                      absurd (
                        accepted_not_pending user_id now later i (
                          subst (λ k. get_status k later ≡ InvitationStatus.pending) (sym same)
                            b.was_pending))
                ])
      ]
