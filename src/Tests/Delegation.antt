-- ===== src/Tests/Delegation.antt =====
-- A league's officer corrects a game of an account that has delegated it.
use baseballstattrack.Common.{ℕ, ◌≡◌, refl, true, Option, none, some, [], ◌∷◌, nat_eq}
use baseballstattrack.Delegation.Policy.{game, Capability}
use baseballstattrack.Delegation.Evidence.{
  DelegationScope, ResolvedDelegationTarget, Status, Validity, DelegationEvidence,
  scope_is_well_formed, target_is_well_formed, scope_matches,
}
use baseballstattrack.Delegation.Evaluation.{
  Verdict, denied, allowed, grant_expired, check_grant, check_delegation, check_approval,
  from_scope, evaluate_grant, evaluate_at, evaluate_league_delegation,
}
use baseballstattrack.Delegation.Authorization.{Authorized, evaluate_league_delegation-Authorized}

abbrev target : ResolvedDelegationTarget
target = record {
  kind = game;
  organization_id = 1;
  league_id = none;
  delegation_id = some 2;
  account_id = some 3;
  team_ids = 4 ∷ 5 ∷ [];
  season_id = some 6;
  game_id = some 7;
}

abbrev scope : DelegationScope
scope = record {
  kind = game;
  organization_id = 1;
  league_id = none;
  delegation_id = some 2;
  account_id = some 3;
  team_id = none;
  season_id = none;
  game_id = some 7;
}

-- From 100 to 200.
abbrev validity : Validity
validity = record { valid_from = some 100; expires_at = some (some 200); revoked_at = none }

abbrev evidence : DelegationEvidence
evidence = record {
  authenticated = true;
  app_user_id = 10;
  organization_id = 1;
  organization_active = true;
  membership = record { id = 11; organization_id = 1; app_user_id = 10; is_active = true };
  delegation = some (record {
    id = 2;
    organization_id = 1;
    account_id = 3;
    status = Status.active;
    validity = validity;
    approved_by_account_membership_id = 12;
  });
  grant = some (record {
    id = 13;
    organization_id = 1;
    organization_membership_id = 11;
    delegation_id = some 2;
    account_id = some 3;
    capability = Capability.game_correct;
    scope = scope;
    status = Status.active;
    validity = validity;
    approved_by_account_membership_id = some 12;
  });
  approval = some (record {
    id = 14;
    grant_id = 13;
    capability = Capability.game_correct;
    scope = scope;
    is_approved = true;
    validity = validity;
    by_account = true;
    approved_by_id = 12;
  });
}

unfoldable evaluated : Option ℕ → Verdict
unfolding evaluate_league_delegation evaluate_at evaluate_grant from_scope check_grant
    check_delegation check_approval scope_is_well_formed target_is_well_formed scope_matches
evaluated date = evaluate_league_delegation evidence Capability.game_correct target date

correction_allowed : evaluated (some 150) ≡ allowed (11 ∷ 13 ∷ 2 ∷ 14 ∷ [])
unfolding evaluated
correction_allowed = refl

correction_late : evaluated (some 200) ≡ denied grant_expired
unfolding evaluated
correction_late = refl

evaluate_league_delegation-Authorized_example :
    (now : ℕ) × (◌≡◌ {A = Option ℕ} (some 150) (some now))
    × Authorized evidence Capability.game_correct target now
unfolding evaluated
evaluate_league_delegation-Authorized_example =
    evaluate_league_delegation-Authorized evidence Capability.game_correct target (some 150)
      (11 ∷ 13 ∷ 2 ∷ 14 ∷ []) refl
