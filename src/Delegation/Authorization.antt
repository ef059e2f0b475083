-- ===== src/Delegation/Authorization.antt =====
-- An action that is allowed is authorized.
use baseballstattrack.Common.{
  ℕ, ◌≡◌, refl, inl, inr, true, false, not, ◌||◌, Option, none, some, List, ◌∷◌, ◌++◌, ◌==◌, nat_eq,
  arith, Option-cases,
}
use baseballstattrack.Delegation.Policy.{Capability, CapabilityPolicy, capability_policy}
use baseballstattrack.Delegation.Evidence.{
  ResolvedDelegationTarget, Grant, DelegationEvidence, is_empty, scope_matches,
}
use baseballstattrack.Delegation.Evaluation.{
  DelegationDenialCode, Verdict, allowed, check_approval, check_delegation, from_scope,
  evaluate_grant, evaluate_at, evaluate_league_delegation,
}
use baseballstattrack.Delegation.Authority.{
  Granted, deny_if-allowed, or-false, not-false, equal_texts, check_grant-Granted,
}
use baseballstattrack.Delegation.Allowed.{
  OnBehalf, Confirmed, check_delegation-OnBehalf, check_approval-Confirmed,
}

-- What an allowed action rests on: the actor is a signed-in, active member of the organization of the
-- target, and holds a grant.
pub record Authorized (evidence : DelegationEvidence) (capability : Capability)
    (target : ResolvedDelegationTarget) (now : ℕ) : Type 0 where
  pub policy : CapabilityPolicy
  pub known : capability_policy capability ≡ some policy
  pub grant : Grant
  pub held : evidence.grant ≡ some grant
  pub signed_in : evidence.authenticated ≡ true
  pub identified : is_empty evidence.app_user_id ≡ false
  pub organization : evidence.organization_id ≡ target.organization_id
  pub organization_active : evidence.organization_active ≡ true
  pub member : evidence.membership.app_user_id ≡ evidence.app_user_id
  pub named : is_empty evidence.membership.id ≡ false
  pub member_of : evidence.membership.organization_id ≡ evidence.organization_id
  pub member_active : evidence.membership.is_active ≡ true
  pub granted : Granted evidence capability policy target grant now
  pub matching : scope_matches grant.scope target ≡ true
  pub on_behalf : OnBehalf evidence capability policy target grant now
  pub confirmed : Confirmed evidence capability policy target grant now

evaluate_grant-parts :
    (evidence : DelegationEvidence) (capability : Capability) (policy : CapabilityPolicy)
    (target : ResolvedDelegationTarget) (grant : Grant) (now : ℕ) (ids : List ℕ)
    → evaluate_grant evidence capability policy target grant now ≡ allowed ids
    → Granted evidence capability policy target grant now
      × OnBehalf evidence capability policy target grant now
      × (scope_matches grant.scope target ≡ true)
      × Confirmed evidence capability policy target grant now
unfolding evaluate_grant from_scope
evaluate_grant-parts evidence capability policy target grant now ids e =
    let rest = from_scope evidence capability policy target grant now in
    let (granted, k1) =
      check_grant-Granted evidence capability policy target grant now
        (check_delegation evidence policy target grant now rest) ids e in
    let (on_behalf, (delegation_ids, k2)) =
      check_delegation-OnBehalf evidence capability policy target grant now rest ids k1 in
    let authority : List ℕ → Verdict = λ approval_ids.
      allowed (evidence.membership.id ∷ grant.id ∷ delegation_ids ++ approval_ids) in
    let (matching, k3) =
      deny_if-allowed (not (scope_matches grant.scope target)) DelegationDenialCode.scope_mismatch
        (check_approval evidence capability policy grant now authority) ids k2 in
    (
      granted,
      on_behalf,
      not-false (scope_matches grant.scope target) matching,
      check_approval-Confirmed evidence capability policy target grant now authority ids k3,
    )

evaluate_at-Authorized :
    (evidence : DelegationEvidence) (capability : Capability) (target : ResolvedDelegationTarget)
    (now : ℕ) (ids : List ℕ)
    → evaluate_at evidence capability target now ≡ allowed ids
    → Authorized evidence capability target now
unfolding evaluate_at
evaluate_at-Authorized evidence capability target now ids e =
    let (signed, k1) = deny_if-allowed _ DelegationDenialCode.authentication_required _ ids e in
    let (organized, k2) = deny_if-allowed _ DelegationDenialCode.organization_inactive _ ids k1 in
    let (joined, k3) =
      deny_if-allowed _ DelegationDenialCode.organization_membership_inactive _ ids k2 in
    let (h_signed, identified) =
      or-false (not evidence.authenticated) (is_empty evidence.app_user_id) signed in
    let (h_active, h_same) =
      or-false (not evidence.organization_active)
        (not (evidence.organization_id == target.organization_id)) organized in
    let named = is_empty evidence.membership.id in
    let enrolled = not evidence.membership.is_active in
    let elsewhere = not (evidence.membership.organization_id == evidence.organization_id) in
    let somebody = not (evidence.membership.app_user_id == evidence.app_user_id) in
    let (h3, h_user) = or-false (named || enrolled || elsewhere) somebody joined in
    let (h2, h_of) = or-false (named || enrolled) elsewhere h3 in
    let (h_named, h_member) = or-false named enrolled h2 in
    elim (Option-cases (capability_policy capability)) [
      | inl unknown ↦ absurd (ground (arith, unknown, k3))
      | inr (policy, known) ↦ elim (Option-cases evidence.grant) [
        | inl nothing ↦ absurd (ground (arith, known, nothing, k3))
        | inr (grant, held) ↦
            let (granted, on_behalf, matching, confirmed) =
              evaluate_grant-parts evidence capability policy target grant now ids
                (rw (known, held) at k3) in
            record {
              policy = policy;
              known = known;
              grant = grant;
              held = held;
              signed_in = not-false evidence.authenticated h_signed;
              identified = identified;
              organization = equal_texts evidence.organization_id target.organization_id h_same;
              organization_active = not-false evidence.organization_active h_active;
              member = equal_texts evidence.membership.app_user_id evidence.app_user_id h_user;
              named = h_named;
              member_of =
                  equal_texts evidence.membership.organization_id evidence.organization_id h_of;
              member_active = not-false evidence.membership.is_active h_member;
              granted = granted;
              matching = matching;
              on_behalf = on_behalf;
              confirmed = confirmed;
            }
      ]
    ]

-- An action is allowed only at a valid date and on authority: the actor is signed in and an active
-- member of the active organization of the target; a grant to that membership for that capability is
-- active and in force, of a well-formed scope of a kind that the capability permits, and its scope
-- matches the well-formed target; neither the target nor the grant is of an account, or, where the
-- capability is delegated by accounts, both are of one account and name its delegation, which is
-- active, in force and approved by the member of the account who approved the grant; and, where the
-- capability wants it, the grant has an approval whose status is approved and which is in force, for
-- the same capability and scope, by an approver of the kind that the capability asks for, who is the
-- member of the account who approved the grant where the account delegates, and for a transfer of
-- ownership not the actor's own membership. No identifier that these name is empty.
pub evaluate_league_delegation-Authorized :
    (evidence : DelegationEvidence) (capability : Capability) (target : ResolvedDelegationTarget)
    (date : Option ℕ) (ids : List ℕ)
    → evaluate_league_delegation evidence capability target date ≡ allowed ids
    → (now : ℕ) × (date ≡ some now) × Authorized evidence capability target now
unfolding evaluate_league_delegation
evaluate_league_delegation-Authorized evidence capability target none ids e = cc
evaluate_league_delegation-Authorized evidence capability target (some now) ids e =
    (now, refl, evaluate_at-Authorized evidence capability target now ids e)
