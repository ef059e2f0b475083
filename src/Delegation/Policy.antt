-- ===== src/Delegation/Policy.antt =====
-- The capabilities and their policies, src/domain/league-delegation.ts.
pub mod Codes
use baseballstattrack.Common.{
  ℕ, ◌+◌, Bool, true, false, Option, none, some, List, [], ◌∷◌, ◌==◌, nat_eq,
}

pub data ScopeKind : Type 0 where
  organization league account team season game : ScopeKind

-- The delegated capabilities; `other` is any other text.
pub data Capability : Type 0 where
  organization_view organization_members_manage organization_ownership_transfer : Capability
  organization_rulesets_manage organization_settings_manage league_settings_manage : Capability
  fantasy_rules_manage fantasy_rules_activate fantasy_league_manage : Capability
  fantasy_league_activate fantasy_team_manage fantasy_roster_manage : Capability
  fantasy_scoring_calculate team_view competition_settings_manage : Capability
  shared_resources_manage report_minimum_field_view ruleset_activate : Capability
  data_import_review data_import_commit report_export : Capability
  game_correct game_verify : Capability
  other : ℕ → Capability

-- A number for each capability, by which they are compared.
abbrev pub capability_code : Capability → ℕ
capability_code Capability.organization_view = 0
capability_code Capability.organization_members_manage = 1
capability_code Capability.organization_ownership_transfer = 2
capability_code Capability.organization_rulesets_manage = 3
capability_code Capability.organization_settings_manage = 4
capability_code Capability.league_settings_manage = 5
capability_code Capability.fantasy_rules_manage = 6
capability_code Capability.fantasy_rules_activate = 7
capability_code Capability.fantasy_league_manage = 8
capability_code Capability.fantasy_league_activate = 9
capability_code Capability.fantasy_team_manage = 10
capability_code Capability.fantasy_roster_manage = 11
capability_code Capability.fantasy_scoring_calculate = 12
capability_code Capability.team_view = 13
capability_code Capability.competition_settings_manage = 14
capability_code Capability.shared_resources_manage = 15
capability_code Capability.report_minimum_field_view = 16
capability_code Capability.ruleset_activate = 17
capability_code Capability.data_import_review = 18
capability_code Capability.data_import_commit = 19
capability_code Capability.report_export = 20
capability_code Capability.game_correct = 21
capability_code Capability.game_verify = 22
capability_code (other n) = 23 + n

abbrev pub kind_code : ScopeKind → ℕ
kind_code organization = 0
kind_code league = 1
kind_code account = 2
kind_code team = 3
kind_code season = 4
kind_code game = 5

abbrev pub same_kind : ScopeKind → ScopeKind → Bool
same_kind a b = kind_code a == kind_code b

abbrev pub same_capability : Capability → Capability → Bool
same_capability a b = capability_code a == capability_code b

pub record CapabilityPolicy : Type 0 where
  pub scopes : List ScopeKind
  pub account_delegated : Bool
  pub approval_required : Bool

abbrev policy : List ScopeKind → Bool → Bool → CapabilityPolicy
policy scopes account_delegated approval_required = record {
  scopes = scopes;
  account_delegated = account_delegated;
  approval_required = approval_required;
}

-- `capabilityPolicies`, with none for a text that `isDelegatedCapability` refuses.
abbrev pub capability_policy : Capability → Option CapabilityPolicy
capability_policy Capability.organization_view = some (policy (organization ∷ []) false false)
capability_policy Capability.organization_members_manage =
    some (policy (organization ∷ []) false false)
capability_policy Capability.organization_ownership_transfer =
    some (policy (organization ∷ []) false true)
capability_policy Capability.organization_rulesets_manage =
    some (policy (organization ∷ league ∷ []) false true)
capability_policy Capability.organization_settings_manage =
    some (policy (organization ∷ []) false false)
capability_policy Capability.league_settings_manage = some (policy (league ∷ []) false false)
capability_policy Capability.fantasy_rules_manage =
    some (policy (organization ∷ league ∷ []) false false)
capability_policy Capability.fantasy_rules_activate =
    some (policy (organization ∷ league ∷ []) false true)
capability_policy Capability.fantasy_league_manage = some (policy (account ∷ []) true false)
capability_policy Capability.fantasy_league_activate = some (policy (account ∷ []) true true)
capability_policy Capability.fantasy_team_manage = some (policy (account ∷ []) true false)
capability_policy Capability.fantasy_roster_manage = some (policy (account ∷ []) true false)
capability_policy Capability.fantasy_scoring_calculate = some (policy (account ∷ []) true false)
capability_policy Capability.team_view = some (policy (team ∷ []) true false)
capability_policy Capability.competition_settings_manage =
    some (policy (team ∷ season ∷ []) true false)
capability_policy Capability.shared_resources_manage = some (policy (team ∷ season ∷ []) true false)
capability_policy Capability.report_minimum_field_view =
    some (policy (team ∷ season ∷ game ∷ []) true false)
capability_policy Capability.ruleset_activate =
    some (policy (account ∷ team ∷ season ∷ []) true true)
capability_policy Capability.data_import_review = some (policy (account ∷ []) true true)
capability_policy Capability.data_import_commit = some (policy (account ∷ []) true true)
capability_policy Capability.report_export =
    some (policy (account ∷ team ∷ season ∷ game ∷ []) true true)
capability_policy Capability.game_correct = some (policy (game ∷ []) true true)
capability_policy Capability.game_verify = some (policy (game ∷ []) true true)
capability_policy (other _) = none
