-- ===== src/Delegation/Evidence.antt =====
-- The evidence of a delegation and the shape of its scopes, src/domain/league-delegation.ts. An empty
-- text is 0, and a `Date` is its milliseconds, none for an invalid one.
use baseballstattrack.Common.{
  ℕ, Bool, true, false, not, ◌&&◌, ◌||◌, Option, none, some, List, [], ◌∷◌, if◌then◌else◌, is_some,
  get_or, length, ltb, leb, ◌==◌, nat_eq, contains, option_beq,
}
use baseballstattrack.Delegation.Policy.{
  ScopeKind, organization, league, account, team, season, game, Capability, kind_code,
}

pub record DelegationScope : Type 0 where
  pub kind : ScopeKind
  pub organization_id : ℕ
  pub league_id : Option ℕ
  pub delegation_id : Option ℕ
  pub account_id : Option ℕ
  pub team_id : Option ℕ
  pub season_id : Option ℕ
  pub game_id : Option ℕ

pub record ResolvedDelegationTarget : Type 0 where
  pub kind : ScopeKind
  pub organization_id : ℕ
  pub league_id : Option ℕ
  pub delegation_id : Option ℕ
  pub account_id : Option ℕ
  pub team_ids : List ℕ
  pub season_id : Option ℕ
  pub game_id : Option ℕ

pub data Status : Type 0 where
  active suspended revoked : Status

-- The dates of a grant, a delegation or an approval.
pub record Validity : Type 0 where
  pub valid_from : Option ℕ
  pub expires_at : Option (Option ℕ)
  pub revoked_at : Option (Option ℕ)

pub record Membership : Type 0 where
  pub id : ℕ
  pub organization_id : ℕ
  pub app_user_id : ℕ
  pub is_active : Bool

pub record Delegation : Type 0 where
  pub id : ℕ
  pub organization_id : ℕ
  pub account_id : ℕ
  pub status : Status
  pub validity : Validity
  pub approved_by_account_membership_id : ℕ

pub record Grant : Type 0 where
  pub id : ℕ
  pub organization_id : ℕ
  pub organization_membership_id : ℕ
  pub delegation_id : Option ℕ
  pub account_id : Option ℕ
  pub capability : Capability
  pub scope : DelegationScope
  pub status : Status
  pub validity : Validity
  pub approved_by_account_membership_id : Option ℕ

-- `is_approved` is the status; `by_account` is `approvedByKind === "ACCOUNT_MEMBERSHIP"`.
pub record Approval : Type 0 where
  pub id : ℕ
  pub grant_id : ℕ
  pub capability : Capability
  pub scope : DelegationScope
  pub is_approved : Bool
  pub validity : Validity
  pub by_account : Bool
  pub approved_by_id : ℕ

pub record DelegationEvidence : Type 0 where
  pub authenticated : Bool
  pub app_user_id : ℕ
  pub organization_id : ℕ
  pub organization_active : Bool
  pub membership : Membership
  pub delegation : Option Delegation
  pub grant : Option Grant
  pub approval : Option Approval

abbrev pub is_active_status : Status → Bool
is_active_status Status.active = true
is_active_status _ = false

abbrev pub is_revoked_status : Status → Bool
is_revoked_status Status.revoked = true
is_revoked_status _ = false

-- Whether a date has come; an invalid one counts as come.
abbrev pub has_come : Option ℕ → ℕ → Bool
has_come none now = true
has_come (some t) now = leb t now

-- `revokedAt !== null && (revokedTime === null || revokedTime <= now)`, and the same for `expiresAt`.
abbrev pub has_ended : Option (Option ℕ) → ℕ → Bool
has_ended none now = false
has_ended (some date) now = has_come date now

-- `revoked`
abbrev pub is_revoked : Status → Validity → ℕ → Bool
is_revoked status validity now = is_revoked_status status || has_ended validity.revoked_at now

pub data WindowState : Type 0 where
  within not_active expired : WindowState

abbrev pub not_started : Option ℕ → ℕ → Bool
not_started none now = true
not_started (some start) now = ltb now start

-- `activeWindow`
abbrev pub active_window : Validity → ℕ → WindowState
active_window validity now =
    if not_started validity.valid_from now
    then not_active
    else if has_ended validity.expires_at now
    then expired
    else within

abbrev pub is_empty : ℕ → Bool
is_empty id = id == 0

-- `present`
abbrev pub present : Option ℕ → Bool
present none = false
present (some id) = not (is_empty id)

abbrev pub absent : Option ℕ → Bool
absent o = not (is_some o)

unfoldable pub scope_is_well_formed : DelegationScope → Bool
scope_is_well_formed s =
    let of_account = present s.delegation_id && present s.account_id && absent s.league_id in
    not (is_empty s.organization_id) && elim s.kind [
      | organization ↦
          absent s.league_id
          && absent s.delegation_id
          && absent s.account_id
          && absent s.team_id
          && absent s.season_id
          && absent s.game_id
      | league ↦
          present s.league_id
          && absent s.delegation_id
          && absent s.account_id
          && absent s.team_id
          && absent s.season_id
          && absent s.game_id
      | account ↦ of_account && absent s.team_id && absent s.season_id && absent s.game_id
      | team ↦ of_account && present s.team_id && absent s.season_id && absent s.game_id
      | season ↦ of_account && absent s.team_id && present s.season_id && absent s.game_id
      | game ↦ of_account && absent s.team_id && absent s.season_id && present s.game_id
    ]

unfoldable pub target_is_well_formed : ResolvedDelegationTarget → Bool
target_is_well_formed t =
    let of_account = present t.delegation_id && present t.account_id && absent t.league_id in
    let no_team = length t.team_ids == 0 in
    not (is_empty t.organization_id) && elim t.kind [
      | organization ↦
          absent t.league_id
          && absent t.delegation_id
          && absent t.account_id
          && no_team
          && absent t.season_id
          && absent t.game_id
      | league ↦
          present t.league_id
          && absent t.delegation_id
          && absent t.account_id
          && no_team
          && absent t.season_id
          && absent t.game_id
      | account ↦ of_account && no_team && absent t.season_id && absent t.game_id
      | team ↦ of_account && not no_team && absent t.season_id && absent t.game_id
      | season ↦ of_account && present t.season_id && absent t.game_id
      | game ↦ of_account && present t.game_id
    ]

-- Two identifiers that are not null and agree.
abbrev pub both_are : Option ℕ → Option ℕ → Bool
both_are none b = false
both_are (some x) b = option_beq (some x) b

abbrev pub is_among : Option ℕ → List ℕ → Bool
is_among none ids = false
is_among (some id) ids = contains ids id

abbrev pub is_organization : ScopeKind → Bool
is_organization organization = true
is_organization _ = false

abbrev pub is_league : ScopeKind → Bool
is_league league = true
is_league _ = false

unfoldable pub scope_matches : DelegationScope → ResolvedDelegationTarget → Bool
scope_matches s t =
    let same_account =
      both_are s.delegation_id t.delegation_id && both_are s.account_id t.account_id in
    s.organization_id == t.organization_id && elim s.kind [
      | organization ↦ is_organization t.kind
      | league ↦ is_league t.kind && option_beq s.league_id t.league_id
      | account ↦ same_account && is_some t.account_id
      | team ↦ same_account && is_among s.team_id t.team_ids
      | season ↦ same_account && both_are s.season_id t.season_id
      | game ↦ same_account && both_are s.game_id t.game_id
    ]

-- The parts that `scopeIdentity` joins: a null is joined as an empty text.
abbrev pub scope_identity : DelegationScope → List ℕ
scope_identity s =
    kind_code s.kind
    ∷ s.organization_id
    ∷ get_or s.league_id 0
    ∷ get_or s.delegation_id 0
    ∷ get_or s.account_id 0
    ∷ get_or s.team_id 0
    ∷ get_or s.season_id 0
    ∷ get_or s.game_id 0
    ∷ []

abbrev pub same_bool : Bool → Bool → Bool
same_bool true b = b
same_bool false b = not b

abbrev pub same_texts : List ℕ → List ℕ → Bool
same_texts [] [] = true
same_texts (x ∷ xs) (y ∷ ys) = x == y && same_texts xs ys
same_texts _ _ = false
