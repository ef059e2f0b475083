-- ===== src/Delegation/Allowed.antt =====
-- An action that is allowed is granted, delegated and approved.
use baseballstattrack.Common.{
  ℕ, ◌≡◌, ◌≢◌, refl, inl, inr, ◌⊎◌, Bool, true, false, ◌&&◌, ◌||◌, Option, none, some, List, [],
  ◌∷◌, is_some, ◌==◌, nat_eq, arith, Bool-cases, Option-cases,
}
use baseballstattrack.Delegation.Policy.{Capability, CapabilityPolicy, same_capability}
use baseballstattrack.Delegation.Policy.Codes.{same_capability-eq, same_capability-differ}
use baseballstattrack.Delegation.Evidence.{
  ResolvedDelegationTarget, Delegation, Grant, Approval, DelegationEvidence, is_active_status,
  is_revoked_status, active_window, scope_identity, same_texts, same_bool,
}
use baseballstattrack.Delegation.Evaluation.{
  DelegationDenialCode, Verdict, allowed, is_within, check_approval, check_delegation,
}
use baseballstattrack.Delegation.Authority.{
  Delegated, Approved, deny_if-allowed, window-InForce, checked-within, or-false, not-false,
  equal_texts, equal_option, equal_option_to,
}

and-false : (a b : Bool) → (a && b) ≡ false → (a ≡ false) ⊎ (b ≡ false)
and-false true b h = inr h
and-false false b h = inl refl

differ-apart : (a b : ℕ) → (a == b) ≡ false → a ≢ b
differ-apart a b h e = ground (arith, h, e)

none_of : (o : Option ℕ) → is_some o ≡ false → o ≡ none
none_of none h = refl
none_of (some n) h = cc

module _ (evidence : DelegationEvidence) (capability : Capability) (policy : CapabilityPolicy)
    (target : ResolvedDelegationTarget) (grant : Grant) (now : ℕ) where
  -- A target of the account that has delegated, or a target and a grant of no account at all.
  abbrev pub OnBehalf : Type 0
  OnBehalf =
      (policy.account_delegated ≡ false)
        × (target.account_id ≡ none)
        × (grant.delegation_id ≡ none)
        × (grant.account_id ≡ none)
      ⊎ (policy.account_delegated ≡ true) × Delegated evidence target grant now

  abbrev pub Confirmed : Type 0
  Confirmed =
      (policy.approval_required ≡ false)
      ⊎ (policy.approval_required ≡ true) × Approved evidence capability policy grant now

  given-Delegated :
      (delegation : Delegation) (rest : List ℕ → Verdict) (ids : List ℕ)
      → policy.account_delegated ≡ true
      → evidence.delegation ≡ some delegation
      → check_delegation evidence policy target grant now rest ≡ allowed ids
      → Delegated evidence target grant now × ((own : List ℕ) × (rest own ≡ allowed ids))
  unfolding check_delegation
  given-Delegated delegation rest ids on given e =
      let opened = rw (on, given) at e in
      let (matched, k1) = deny_if-allowed _ DelegationDenialCode.delegation_mismatch _ ids opened in
      let (kept, k2) = deny_if-allowed _ DelegationDenialCode.delegation_revoked _ ids k1 in
      let (active, k3) = deny_if-allowed _ DelegationDenialCode.delegation_inactive _ ids k2 in
      let (begun, k4) = deny_if-allowed _ DelegationDenialCode.delegation_inactive _ ids k3 in
      let (unexpired, k5) = deny_if-allowed _ DelegationDenialCode.delegation_expired _ ids k4 in
      let (h8, same_approver) = or-false _ _ matched in
      let (h7, _) = or-false _ _ h8 in
      let (h6, approver_named) = or-false _ _ h7 in
      let (h5, of_target) = or-false _ _ h6 in
      let (h4, of_grant) = or-false _ _ h5 in
      let (h3, names_target) = or-false _ _ h4 in
      let (h2, names_grant) = or-false _ _ h3 in
      let (named, to_organization) = or-false _ _ h2 in
      let (_, when) = or-false (is_revoked_status delegation.status) _ kept in
      (
        record {
          delegation = delegation;
          given = given;
          named = named;
          to_organization =
              equal_texts delegation.organization_id evidence.organization_id to_organization;
          of_target = equal_option delegation.account_id target.account_id of_target;
          of_grant = equal_option delegation.account_id grant.account_id of_grant;
          names_grant = equal_option delegation.id grant.delegation_id names_grant;
          names_target = equal_option delegation.id target.delegation_id names_target;
          active = not-false (is_active_status delegation.status) active;
          in_force =
              window-InForce delegation.validity now
                (checked-within (active_window delegation.validity now) begun unexpired) when;
          approver_named = approver_named;
          same_approver =
              equal_option_to grant.approved_by_account_membership_id
                delegation.approved_by_account_membership_id same_approver;
        },
        (delegation.id ∷ [], k5),
      )

  pub check_delegation-OnBehalf :
      (rest : List ℕ → Verdict) (ids : List ℕ)
      → check_delegation evidence policy target grant now rest ≡ allowed ids
      → OnBehalf × ((own : List ℕ) × (rest own ≡ allowed ids))
  unfolding check_delegation
  check_delegation-OnBehalf rest ids e = elim (Bool-cases policy.account_delegated) [
    | inl on ↦ elim (Option-cases evidence.delegation) [
      | inl nothing ↦ absurd (ground (arith, on, nothing, e))
      | inr (delegation, given) ↦
          let (delegated, own) = given-Delegated delegation rest ids on given e in
          (inr (on, delegated), own)
    ]
    | inr off ↦
        let opened = rw off at e in
        let (unscoped, k) = deny_if-allowed _ DelegationDenialCode.scope_mismatch _ ids opened in
        let (of_grant, no_account) =
          or-false (is_some grant.delegation_id || is_some grant.account_id)
            (is_some target.account_id) unscoped in
        let (no_delegation, no_owner) =
          or-false (is_some grant.delegation_id) (is_some grant.account_id) of_grant in
        (
          inl (
            off,
            none_of target.account_id no_account,
            none_of grant.delegation_id no_delegation,
            none_of grant.account_id no_owner,
          ),
          ([], k),
        )
  ]

  given-Approved :
      (approval : Approval) (rest : List ℕ → Verdict) (ids : List ℕ)
      → policy.approval_required ≡ true
      → evidence.approval ≡ some approval
      → check_approval evidence capability policy grant now rest ≡ allowed ids
      → Approved evidence capability policy grant now
  unfolding check_approval
  given-Approved approval rest ids on given e =
      let opened = rw (on, given) at e in
      let (matched, k1) = deny_if-allowed _ DelegationDenialCode.approval_invalid _ ids opened in
      let (open_now, _) = deny_if-allowed _ DelegationDenialCode.approval_expired _ ids k1 in
      let (h9, when) = or-false _ _ matched in
      let (h8, scoped) = or-false _ _ h9 in
      let (h7, own) = or-false _ _ h8 in
      let (h6, account) = or-false _ _ h7 in
      let (h5, approver) = or-false _ _ h6 in
      let (h4, kind) = or-false _ _ h5 in
      let (h3, same) = or-false _ _ h4 in
      let (h2, of_grant) = or-false _ _ h3 in
      let (named, approved) = or-false _ _ h2 in
      record {
        approval = approval;
        given = given;
        named = named;
        approved = not-false approval.is_approved approved;
        of_grant = equal_texts approval.grant_id grant.id of_grant;
        for_capability =
            same_capability-eq approval.capability capability
              (not-false (same_capability approval.capability capability) same);
        of_kind = not-false (same_bool approval.by_account policy.account_delegated) kind;
        approver_named = approver;
        same_scope =
            not-false (same_texts (scope_identity approval.scope) (scope_identity grant.scope))
              scoped;
        by_the_account = elim (and-false policy.account_delegated _ account) [
          | inl off ↦ inl off
          | inr equal ↦
              inr
                (equal_option approval.approved_by_id grant.approved_by_account_membership_id equal)
        ];
        not_by_oneself =
            elim (and-false (same_capability capability Capability.organization_ownership_transfer)
              _ own) [
                | inl other_action ↦ inl (
                    same_capability-differ capability Capability.organization_ownership_transfer
                      other_action)
                | inr differ ↦
                    inr (differ-apart approval.approved_by_id evidence.membership.id differ)
              ];
        in_force =
            window-InForce approval.validity now
              (not-false (is_within (active_window approval.validity now)) open_now) when;
      }

  pub check_approval-Confirmed :
      (rest : List ℕ → Verdict) (ids : List ℕ)
      → check_approval evidence capability policy grant now rest ≡ allowed ids
      → Confirmed
  unfolding check_approval
  check_approval-Confirmed rest ids e = elim (Bool-cases policy.approval_required) [
    | inl on ↦ elim (Option-cases evidence.approval) [
      | inl nothing ↦ absurd (ground (arith, on, nothing, e))
      | inr (approval, given) ↦ inr (on, given-Approved approval rest ids on given e)
    ]
    | inr off ↦ inl off
  ]
