-- ===== src/Delegation/Authority.antt =====
-- What an allowed action rests on.
use baseballstattrack.Common.{
  ℕ, ◌≤◌, ◌≡◌, ◌≢◌, refl, ◌⊎◌, Bool, true, false, not, ◌||◌, Option, none, some, List, any, ◌==◌,
  nat_eq, option_beq, arith, eq_of_beq,
}
use baseballstattrack.Delegation.Policy.{Capability, CapabilityPolicy, same_kind, same_capability}
use baseballstattrack.Delegation.Policy.Codes.{same_capability-eq}
use baseballstattrack.Delegation.Evidence.{
  ResolvedDelegationTarget, Validity, Delegation, Grant, Approval, DelegationEvidence,
  is_active_status, is_revoked_status, has_ended, not_started, WindowState, within, not_active,
  expired, active_window, target_is_well_formed, scope_identity, same_texts, is_empty,
  scope_is_well_formed, same_bool,
}
use baseballstattrack.Delegation.Evaluation.{
  DelegationDenialCode, Verdict, allowed, deny_if, is_not_active, is_expired, is_within,
  check_grant,
}

-- At a date: begun, and neither over nor revoked.
pub record InForce (validity : Validity) (now : ℕ) : Type 0 where
  pub begun : (start : ℕ) × (validity.valid_from ≡ some start) × (start ≤ now)
  pub not_over : has_ended validity.expires_at now ≡ false
  pub not_revoked : has_ended validity.revoked_at now ≡ false

-- A grant with an identifier, to the member, for the capability and a scope that matches the target.
pub record Granted (evidence : DelegationEvidence) (capability : Capability)
    (policy : CapabilityPolicy) (target : ResolvedDelegationTarget) (grant : Grant) (now : ℕ)
    : Type 0 where
  pub named : is_empty grant.id ≡ false
  pub of_organization : grant.organization_id ≡ evidence.organization_id
  pub of_member : grant.organization_membership_id ≡ evidence.membership.id
  pub for_capability : grant.capability ≡ capability
  pub in_force : InForce grant.validity now
  pub active : is_active_status grant.status ≡ true
  pub scope_well_formed : scope_is_well_formed grant.scope ≡ true
  pub scope_permitted : any (λ k. same_kind k grant.scope.kind) policy.scopes ≡ true
  pub target_well_formed : target_is_well_formed target ≡ true

-- A delegation by the account of the target, which is the account of the grant.
pub record Delegated (evidence : DelegationEvidence) (target : ResolvedDelegationTarget)
    (grant : Grant) (now : ℕ) : Type 0 where
  pub delegation : Delegation
  pub given : evidence.delegation ≡ some delegation
  pub named : is_empty delegation.id ≡ false
  pub to_organization : delegation.organization_id ≡ evidence.organization_id
  pub of_target : target.account_id ≡ some delegation.account_id
  pub of_grant : grant.account_id ≡ some delegation.account_id
  pub names_grant : grant.delegation_id ≡ some delegation.id
  pub names_target : target.delegation_id ≡ some delegation.id
  pub active : is_active_status delegation.status ≡ true
  pub in_force : InForce delegation.validity now
  pub approver_named : is_empty delegation.approved_by_account_membership_id ≡ false
  pub same_approver :
      grant.approved_by_account_membership_id ≡ some delegation.approved_by_account_membership_id

-- An approval that is approved, of the grant, by a member of the account or of the organization as the
-- capability asks, which nobody gives for a transfer of ownership to himself.
pub record Approved (evidence : DelegationEvidence) (capability : Capability)
    (policy : CapabilityPolicy) (grant : Grant) (now : ℕ) : Type 0 where
  pub approval : Approval
  pub given : evidence.approval ≡ some approval
  pub named : is_empty approval.id ≡ false
  pub approved : approval.is_approved ≡ true
  pub of_grant : approval.grant_id ≡ grant.id
  pub for_capability : approval.capability ≡ capability
  pub of_kind : same_bool approval.by_account policy.account_delegated ≡ true
  pub approver_named : is_empty approval.approved_by_id ≡ false
  pub same_scope : same_texts (scope_identity approval.scope) (scope_identity grant.scope) ≡ true
  pub by_the_account :
      (policy.account_delegated ≡ false)
      ⊎ (grant.approved_by_account_membership_id ≡ some approval.approved_by_id)
  pub not_by_oneself :
      (capability ≢ Capability.organization_ownership_transfer)
      ⊎ (approval.approved_by_id ≢ evidence.membership.id)
  pub in_force : InForce approval.validity now

pub deny_if-allowed :
    (bad : Bool) (code : DelegationDenialCode) (rest : Verdict) (ids : List ℕ)
    → deny_if bad code rest ≡ allowed ids
    → (bad ≡ false) × (rest ≡ allowed ids)
deny_if-allowed true code rest ids e = cc
deny_if-allowed false code rest ids e = (refl, e)

window-begun :
    (start : Option ℕ) (now : ℕ)
    → not_started start now ≡ false
    → (s : ℕ) × (start ≡ some s) × (s ≤ now)
window-begun none now h = cc
window-begun (some s) now h = (s, refl, ground arith)

pub window-InForce :
    (validity : Validity) (now : ℕ)
    → is_within (active_window validity now) ≡ true
    → has_ended validity.revoked_at now ≡ false
    → InForce validity now
window-InForce validity now h revoked = record {
  begun = window-begun validity.valid_from now (ground (arith, h));
  not_over = ground (arith, h);
  not_revoked = revoked;
}

pub checked-within :
    (w : WindowState) → is_not_active w ≡ false → is_expired w ≡ false → is_within w ≡ true
checked-within within h k = refl
checked-within not_active h k = cc
checked-within expired h k = cc

pub or-false : (a b : Bool) → (a || b) ≡ false → (a ≡ false) × (b ≡ false)
or-false true b h = cc
or-false false b h = (refl, h)

pub not-false : (b : Bool) → not b ≡ false → b ≡ true
not-false true h = refl
not-false false h = cc

pub equal_texts : (a b : ℕ) → not (a == b) ≡ false → a ≡ b
equal_texts a b h = eq_of_beq a b (not-false (a == b) h)

pub equal_option : (a : ℕ) (o : Option ℕ) → not (option_beq (some a) o) ≡ false → o ≡ some a
equal_option a none h = cc
equal_option a (some b) h = ground (arith, equal_texts a b)

pub equal_option_to : (o : Option ℕ) (a : ℕ) → not (option_beq o (some a)) ≡ false → o ≡ some a
equal_option_to none a h = cc
equal_option_to (some b) a h = ground (arith, equal_texts b a)

module _ (evidence : DelegationEvidence) (capability : Capability) (policy : CapabilityPolicy)
    (target : ResolvedDelegationTarget) (grant : Grant) (now : ℕ) where
  pub check_grant-Granted :
      (rest : Verdict) (ids : List ℕ)
      → check_grant evidence capability policy target grant now rest ≡ allowed ids
      → Granted evidence capability policy target grant now × (rest ≡ allowed ids)
  unfolding check_grant
  check_grant-Granted rest ids e =
      let (matched, k1) = deny_if-allowed _ DelegationDenialCode.grant_mismatch _ ids e in
      let (kept, k2) = deny_if-allowed _ DelegationDenialCode.grant_revoked _ ids k1 in
      let (active, k3) = deny_if-allowed _ DelegationDenialCode.grant_inactive _ ids k2 in
      let (begun, k4) = deny_if-allowed _ DelegationDenialCode.grant_inactive _ ids k3 in
      let (unexpired, k5) = deny_if-allowed _ DelegationDenialCode.grant_expired _ ids k4 in
      let (scoped, k6) = deny_if-allowed _ DelegationDenialCode.scope_not_allowed _ ids k5 in
      let (ab, d) = or-false _ _ matched in
      let (aa, c) = or-false _ _ ab in
      let (named, b) = or-false _ _ aa in
      let (unrevoked, when) = or-false (is_revoked_status grant.status) _ kept in
      let (sab, sc) = or-false _ _ scoped in
      let (sa, formed) = or-false _ _ sab in
      (
        record {
          named = named;
          of_organization = equal_texts grant.organization_id evidence.organization_id b;
          of_member = equal_texts grant.organization_membership_id evidence.membership.id c;
          for_capability =
              same_capability-eq grant.capability capability
                (not-false (same_capability grant.capability capability) d);
          in_force =
              window-InForce grant.validity now
                (checked-within (active_window grant.validity now) begun unexpired) when;
          active = not-false (is_active_status grant.status) active;
          scope_well_formed = not-false (scope_is_well_formed grant.scope) formed;
          scope_permitted = not-false (any (λ k. same_kind k grant.scope.kind) policy.scopes) sc;
          target_well_formed = not-false (target_is_well_formed target) sa;
        },
        k6,
      )
