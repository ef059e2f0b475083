-- ===== src/Delegation/Evaluation.antt =====
-- `evaluateLeagueDelegation`, src/domain/league-delegation.ts.
use baseballstattrack.Common.{
  ℕ, Bool, true, false, not, ◌&&◌, ◌||◌, Option, none, some, List, [], ◌∷◌, ◌++◌, if◌then◌else◌,
  any, is_some, ◌==◌, nat_eq, option_beq,
}
use baseballstattrack.Delegation.Policy.{
  ScopeKind, Capability, CapabilityPolicy, capability_policy, same_kind, same_capability,
}
use baseballstattrack.Delegation.Evidence.{
  ResolvedDelegationTarget, Delegation, Grant, Approval, DelegationEvidence, is_active_status,
  is_revoked, has_ended, WindowState, within, not_active, expired, active_window, is_empty,
  scope_is_well_formed, target_is_well_formed, scope_matches, scope_identity, same_bool, same_texts,
}

pub data DelegationDenialCode : Type 0 where
  authentication_required organization_inactive : DelegationDenialCode
  organization_membership_inactive capability_unknown grant_required : DelegationDenialCode
  grant_mismatch grant_revoked grant_inactive grant_expired : DelegationDenialCode
  delegation_required delegation_mismatch delegation_revoked : DelegationDenialCode
  delegation_inactive delegation_expired scope_not_allowed scope_mismatch : DelegationDenialCode
  approval_required approval_invalid approval_expired : DelegationDenialCode

-- A denial, or the identifiers of the authority.
pub data Verdict : Type 0 where
  denied : DelegationDenialCode → Verdict
  allowed : List ℕ → Verdict

-- `if (bad) return denied(…, code, …)`
abbrev pub deny_if : Bool → DelegationDenialCode → Verdict → Verdict
deny_if true code rest = denied code
deny_if false code rest = rest

abbrev pub is_not_active : WindowState → Bool
is_not_active not_active = true
is_not_active _ = false

abbrev pub is_expired : WindowState → Bool
is_expired expired = true
is_expired _ = false

abbrev pub is_within : WindowState → Bool
is_within within = true
is_within _ = false

-- The checks of an approval; `rest` is what follows them.
unfoldable pub check_approval :
    DelegationEvidence → Capability → CapabilityPolicy → Grant → ℕ → (List ℕ → Verdict) → Verdict
check_approval evidence capability policy grant now rest =
    if policy.approval_required
    then elim evidence.approval [
      | none ↦ denied approval_required
      | some approval ↦
          deny_if
            (is_empty approval.id
              || not approval.is_approved
              || not (approval.grant_id == grant.id)
              || not (same_capability approval.capability capability)
              || not (same_bool approval.by_account policy.account_delegated)
              || is_empty approval.approved_by_id
              || policy.account_delegated
                && not (
                    option_beq (some approval.approved_by_id)
                      grant.approved_by_account_membership_id)
              || same_capability capability Capability.organization_ownership_transfer
                && approval.approved_by_id == evidence.membership.id
              || not (same_texts (scope_identity approval.scope) (scope_identity grant.scope))
              || has_ended approval.validity.revoked_at now)
            approval_invalid
            (deny_if (not (is_within (active_window approval.validity now))) approval_expired
              (rest (approval.id ∷ [])))
    ]
    else rest []

abbrev pub is_missing : Option ℕ → Bool
is_missing none = true
is_missing (some id) = is_empty id

unfoldable pub check_delegation :
    DelegationEvidence
    → CapabilityPolicy
    → ResolvedDelegationTarget
    → Grant
    → ℕ
    → (List ℕ → Verdict)
    → Verdict
check_delegation evidence policy target grant now rest =
    if policy.account_delegated
    then elim evidence.delegation [
      | none ↦ denied delegation_required
      | some delegation ↦
          deny_if
            (is_empty delegation.id
              || not (delegation.organization_id == evidence.organization_id)
              || not (option_beq (some delegation.id) grant.delegation_id)
              || not (option_beq (some delegation.id) target.delegation_id)
              || not (option_beq (some delegation.account_id) grant.account_id)
              || not (option_beq (some delegation.account_id) target.account_id)
              || is_empty delegation.approved_by_account_membership_id
              || is_missing grant.approved_by_account_membership_id
              || not (
                  option_beq grant.approved_by_account_membership_id
                    (some delegation.approved_by_account_membership_id)))
            delegation_mismatch
            (deny_if (is_revoked delegation.status delegation.validity now) delegation_revoked (
              deny_if (not (is_active_status delegation.status)) delegation_inactive (
                deny_if (is_not_active (active_window delegation.validity now)) delegation_inactive
                  (deny_if (is_expired (active_window delegation.validity now)) delegation_expired
                    (rest (delegation.id ∷ []))))))
    ]
    else deny_if
        (is_some grant.delegation_id || is_some grant.account_id || is_some target.account_id)
        scope_mismatch (rest [])

unfoldable pub check_grant :
    DelegationEvidence
    → Capability
    → CapabilityPolicy
    → ResolvedDelegationTarget
    → Grant
    → ℕ
    → Verdict
    → Verdict
check_grant evidence capability policy target grant now rest =
    deny_if
      (is_empty grant.id
        || not (grant.organization_id == evidence.organization_id)
        || not (grant.organization_membership_id == evidence.membership.id)
        || not (same_capability grant.capability capability))
      grant_mismatch
      (deny_if (is_revoked grant.status grant.validity now) grant_revoked (
        deny_if (not (is_active_status grant.status)) grant_inactive (
          deny_if (is_not_active (active_window grant.validity now)) grant_inactive (
            deny_if (is_expired (active_window grant.validity now)) grant_expired (
              deny_if
                (not (target_is_well_formed target)
                  || not (scope_is_well_formed grant.scope)
                  || not (any (λ k. same_kind k grant.scope.kind) policy.scopes))
                scope_not_allowed rest)))))

-- From the comparison of the scopes on; the identifiers of the authority come at the end.
unfoldable pub from_scope :
    DelegationEvidence
    → Capability
    → CapabilityPolicy
    → ResolvedDelegationTarget
    → Grant
    → ℕ
    → List ℕ
    → Verdict
unfolding check_approval
from_scope evidence capability policy target grant now delegation_ids =
    deny_if (not (scope_matches grant.scope target)) scope_mismatch (
      check_approval evidence capability policy grant now (λ approval_ids.
        allowed (evidence.membership.id ∷ grant.id ∷ delegation_ids ++ approval_ids)))

-- From the grant on.
unfoldable pub evaluate_grant :
    DelegationEvidence
    → Capability
    → CapabilityPolicy
    → ResolvedDelegationTarget
    → Grant
    → ℕ
    → Verdict
unfolding check_grant check_delegation from_scope
evaluate_grant evidence capability policy target grant now =
    check_grant evidence capability policy target grant now (
      check_delegation evidence policy target grant now
        (from_scope evidence capability policy target grant now))

-- The identity of the actor, at a date that is valid.
unfoldable pub evaluate_at :
    DelegationEvidence → Capability → ResolvedDelegationTarget → ℕ → Verdict
unfolding evaluate_grant
evaluate_at evidence capability target now =
    let membership = evidence.membership in
    deny_if (not evidence.authenticated || is_empty evidence.app_user_id) authentication_required (
      deny_if
        (not evidence.organization_active
          || not (evidence.organization_id == target.organization_id))
        organization_inactive
        (deny_if
          (is_empty membership.id
            || not membership.is_active
            || not (membership.organization_id == evidence.organization_id)
            || not (membership.app_user_id == evidence.app_user_id))
          organization_membership_inactive
          (elim (capability_policy capability) [
            | none ↦ denied capability_unknown
            | some policy ↦ elim evidence.grant [
              | none ↦ denied grant_required
              | some grant ↦ evaluate_grant evidence capability policy target grant now
            ]
          ])))

unfoldable pub evaluate_league_delegation :
    DelegationEvidence → Capability → ResolvedDelegationTarget → Option ℕ → Verdict
unfolding evaluate_at
evaluate_league_delegation evidence capability target none = denied authentication_required
evaluate_league_delegation evidence capability target (some now) =
    evaluate_at evidence capability target now

-- `audit`, of a verdict: its result is ALLOWED where there is no reason.
pub record DelegationAuditEvidence : Type 0 where
  pub actor_id : ℕ
  pub organization_id : ℕ
  pub account_id : Option ℕ
  pub capability : Capability
  pub scope_kind : ScopeKind
  pub organization_membership_id : ℕ
  pub delegation_id : Option ℕ
  pub grant_id : Option ℕ
  pub approval_id : Option ℕ
  pub evaluated_at : Option ℕ
  pub reason_code : Option DelegationDenialCode

abbrev pub reason_of : Verdict → Option DelegationDenialCode
reason_of (denied code) = some code
reason_of (allowed ids) = none

abbrev pub id_if : {A : Type 0} → Bool → (A → ℕ) → Option A → Option ℕ
id_if b id_of none = none
id_if b id_of (some a) = if b then some (id_of a) else none

abbrev pub audit :
    DelegationEvidence
    → Capability
    → ResolvedDelegationTarget
    → Option ℕ
    → Verdict
    → DelegationAuditEvidence
audit evidence capability target now verdict = record {
  actor_id = evidence.app_user_id;
  organization_id = target.organization_id;
  account_id = target.account_id;
  capability = capability;
  scope_kind = target.kind;
  organization_membership_id = evidence.membership.id;
  delegation_id = elim (capability_policy capability) [
    | none ↦ none
    | some policy ↦ id_if policy.account_delegated (λ (d : Delegation). d.id) evidence.delegation
  ];
  grant_id = id_if true (λ (g : Grant). g.id) evidence.grant;
  approval_id = elim (capability_policy capability) [
    | none ↦ none
    | some policy ↦ id_if policy.approval_required (λ (a : Approval). a.id) evidence.approval
  ];
  evaluated_at = now;
  reason_code = reason_of verdict;
}
