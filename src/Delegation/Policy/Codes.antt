-- ===== src/Delegation/Policy/Codes.antt =====
-- Capabilities that have the same number are the same.
use baseballstattrack.Common.{
  ℕ, zero, suc, ◌+◌, ◌≤◌, ◌<◌, ◌≡◌, ◌≢◌, refl, sym, ap, ◌∙◌, inl, inr, true, false, Option, none,
  some, List, [], ◌∷◌, nat_eq, ltb, beq_refl, eq_of_beq, arith, Bool-cases,
}
use baseballstattrack.Delegation.Policy.{Capability, other, capability_code, same_capability}

abbrev element_at : List Capability → ℕ → Option Capability
element_at [] n = none
element_at (c ∷ cs) zero = some c
element_at (c ∷ cs) (suc n) = element_at cs n

abbrev delegated_capabilities : List Capability
delegated_capabilities =
    Capability.organization_view ∷ Capability.organization_members_manage
    ∷ Capability.organization_ownership_transfer ∷ Capability.organization_rulesets_manage
    ∷ Capability.organization_settings_manage ∷ Capability.league_settings_manage
    ∷ Capability.fantasy_rules_manage ∷ Capability.fantasy_rules_activate
    ∷ Capability.fantasy_league_manage ∷ Capability.fantasy_league_activate
    ∷ Capability.fantasy_team_manage ∷ Capability.fantasy_roster_manage
    ∷ Capability.fantasy_scoring_calculate ∷ Capability.team_view
    ∷ Capability.competition_settings_manage ∷ Capability.shared_resources_manage
    ∷ Capability.report_minimum_field_view ∷ Capability.ruleset_activate
    ∷ Capability.data_import_review ∷ Capability.data_import_commit ∷ Capability.report_export
    ∷ Capability.game_correct ∷ Capability.game_verify ∷ []

decode :
    (c : Capability)
    → capability_code c < 23
    → element_at delegated_capabilities (capability_code c) ≡ some c
decode Capability.organization_view h = refl
decode Capability.organization_members_manage h = refl
decode Capability.organization_ownership_transfer h = refl
decode Capability.organization_rulesets_manage h = refl
decode Capability.organization_settings_manage h = refl
decode Capability.league_settings_manage h = refl
decode Capability.fantasy_rules_manage h = refl
decode Capability.fantasy_rules_activate h = refl
decode Capability.fantasy_league_manage h = refl
decode Capability.fantasy_league_activate h = refl
decode Capability.fantasy_team_manage h = refl
decode Capability.fantasy_roster_manage h = refl
decode Capability.fantasy_scoring_calculate h = refl
decode Capability.team_view h = refl
decode Capability.competition_settings_manage h = refl
decode Capability.shared_resources_manage h = refl
decode Capability.report_minimum_field_view h = refl
decode Capability.ruleset_activate h = refl
decode Capability.data_import_review h = refl
decode Capability.data_import_commit h = refl
decode Capability.report_export h = refl
decode Capability.game_correct h = refl
decode Capability.game_verify h = refl
decode (other n) h = absurd (omega arith)

large_code : (c : Capability) → 23 ≤ capability_code c → (n : ℕ) × (c ≡ other n)
large_code (other n) h = (n, refl)
large_code _ h = absurd (omega arith)

some-injective : (a b : Capability) → ◌≡◌ {A = Option Capability} (some a) (some b) → a ≡ b
some-injective a b e = cc

capability_code-injective : (a b : Capability) → capability_code a ≡ capability_code b → a ≡ b
capability_code-injective a b e = elim (Bool-cases (ltb (capability_code a) 23)) [
  | inl small ↦ some-injective a b (
      sym (decode a (ground (arith, small)))
      ∙ ap (element_at delegated_capabilities) e
      ∙ decode b (ground (arith, small, e)))
  | inr large ↦
      let (m, named) = large_code a (ground (arith, large)) in
      let (n, named_too) = large_code b (ground (arith, large, e)) in
      let codes : 23 + m ≡ 23 + n =
        sym (ap capability_code named) ∙ e ∙ ap capability_code named_too in
      let same : m ≡ n = omega arith in named ∙ ap other same ∙ sym named_too
]

pub same_capability-eq : (a b : Capability) → same_capability a b ≡ true → a ≡ b
same_capability-eq a b h =
    capability_code-injective a b (eq_of_beq (capability_code a) (capability_code b) h)

pub same_capability-differ : (a b : Capability) → same_capability a b ≡ false → a ≢ b
same_capability-differ a b h e =
    ground (arith, h, ap capability_code e, beq_refl (capability_code b))
