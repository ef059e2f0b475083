-- ===== src/Engine/Roster/Frame.antt =====
-- What the lineup operations leave alone.
use baseballstattrack.Common.{◌≡◌, false, some, find, nat_eq, ok, or_raise, EventErrorCode, arith}
use baseballstattrack.Events.Enums.{in_progress}
use baseballstattrack.Events.Equality.{
  side_eq, position_eq, base_eq, origin_eq, cause_eq, outcome_eq, credit_eq, play_type_eq,
  policy_eq, status_eq, status_beq_iff, destination_eq,
}
use baseballstattrack.Events.State.{at_side, LineupEntry, GameState}
use baseballstattrack.Events.Bodies.{Substitution, Alignment, PitchingChange}
use baseballstattrack.Common.{>>=-eq-ok, guard-eq-ok, or_raise-eq-ok}
use baseballstattrack.Engine.Plays.Resolution.{require_live-status}
use baseballstattrack.Engine.Innings.{require_live}
use baseballstattrack.Engine.Roster.{
  take_base, is_player, is_active_player, substitution_invalid, substitute, make_substitution,
  change_alignment, pitching_change_invalid, change_pitcher, make_pitching_change,
}

-- The clock, the score, the turn at bat and the revision stand still.
pub record RosterFrame (state next : GameState) : Type 0 where
  pub live : state.status ≡ in_progress
  pub status : next.status ≡ state.status
  pub inning : next.inning ≡ state.inning
  pub half : next.half ≡ state.half
  pub outs : next.outs ≡ state.outs
  pub score : next.score ≡ state.score
  pub order : next.batting_order_index ≡ state.batting_order_index
  pub revision : next.source_revision ≡ state.source_revision
  pub sequence : next.last_sequence ≡ state.last_sequence
  pub account : next.account_id ≡ state.account_id
  pub game : next.game_id ≡ state.game_id
  pub setup : next.setup_snapshot_id ≡ state.setup_snapshot_id
  pub setup_revision : next.setup_revision ≡ state.setup_revision
  pub rules : next.ruleset_version_id ≡ state.ruleset_version_id

pub substitution-RosterFrame :
    (state : GameState) (s : Substitution) (next : GameState)
    → make_substitution state s ≡ ok next
    → RosterFrame state next
unfolding make_substitution require_live substitute take_base
substitution-RosterFrame state s next h = ground (arith, status_beq_iff state.status in_progress)

pub alignment-RosterFrame :
    (state : GameState) (a : Alignment) (next : GameState)
    → change_alignment state a ≡ ok next
    → RosterFrame state next
unfolding change_alignment require_live
alignment-RosterFrame state a next h = ground (arith, status_beq_iff state.status in_progress)

pub pitching_change-RosterFrame :
    (state : GameState) (c : PitchingChange) (next : GameState)
    → make_pitching_change state c ≡ ok next
    → RosterFrame state next
unfolding make_pitching_change require_live change_pitcher
pitching_change-RosterFrame state c next h = ground (arith, status_beq_iff state.status in_progress)

-- The entries that a successful substitution has found, and its last step.
pub record Substituted (state : GameState) (s : Substitution) (next : GameState) : Type 0 where
  pub outgoing : LineupEntry
  pub incoming : LineupEntry
  pub found_outgoing :
      find (is_active_player s.outgoing_player_id) (at_side state.lineups s.side) ≡ some outgoing
  pub found_incoming :
      find (is_player s.incoming_player_id) (at_side state.lineups s.side) ≡ some incoming
  pub valid : substitution_invalid state s outgoing incoming ≡ false
  pub placed :
      take_base state outgoing.player_id incoming.player_id (substitute state s outgoing incoming)
      ≡ ok next

pub make_substitution-Substituted :
    (state : GameState) (s : Substitution) {next : GameState}
    → make_substitution state s ≡ ok next
    → Substituted state s next
unfolding make_substitution
make_substitution-Substituted state s h =
    let lineup = at_side state.lineups s.side in
    let (_, h₁) = require_live-status state _ h in
    let (outgoing, found_outgoing, h₂) =
      >>=-eq-ok
        (or_raise (find (is_active_player s.outgoing_player_id) lineup)
          EventErrorCode.invalid_lineup)
        _ h₁ in
    let (incoming, found_incoming, h₃) =
      >>=-eq-ok
        (or_raise (find (is_player s.incoming_player_id) lineup) EventErrorCode.invalid_lineup) _
        h₂ in
    let (valid, placed) =
      guard-eq-ok (substitution_invalid state s outgoing incoming) EventErrorCode.invalid_lineup _
        h₃ in
    record {
      outgoing = outgoing;
      incoming = incoming;
      found_outgoing = or_raise-eq-ok _ EventErrorCode.invalid_lineup found_outgoing;
      found_incoming = or_raise-eq-ok _ EventErrorCode.invalid_lineup found_incoming;
      valid = valid;
      placed = placed;
    }

pub record PitcherChanged (state : GameState) (c : PitchingChange) (next : GameState) : Type 0 where
  pub outgoing : LineupEntry
  pub incoming : LineupEntry
  pub found_outgoing :
      find (is_player c.outgoing_pitcher_id) (at_side state.lineups c.side) ≡ some outgoing
  pub found_incoming :
      find (is_player c.incoming_pitcher_id) (at_side state.lineups c.side) ≡ some incoming
  pub valid : pitching_change_invalid state c outgoing incoming ≡ false
  pub changed : next ≡ change_pitcher state c outgoing incoming

pub make_pitching_change-PitcherChanged :
    (state : GameState) (c : PitchingChange) {next : GameState}
    → make_pitching_change state c ≡ ok next
    → PitcherChanged state c next
unfolding make_pitching_change
make_pitching_change-PitcherChanged state c h =
    let lineup = at_side state.lineups c.side in
    let (_, h₁) = require_live-status state _ h in
    let (outgoing, found_outgoing, h₂) =
      >>=-eq-ok
        (or_raise (find (is_player c.outgoing_pitcher_id) lineup) EventErrorCode.invalid_pitcher) _
        h₁ in
    let (incoming, found_incoming, h₃) =
      >>=-eq-ok
        (or_raise (find (is_player c.incoming_pitcher_id) lineup) EventErrorCode.invalid_pitcher) _
        h₂ in
    let (valid, changed) =
      guard-eq-ok (pitching_change_invalid state c outgoing incoming) EventErrorCode.invalid_pitcher
        _ h₃ in
    record {
      outgoing = outgoing;
      incoming = incoming;
      found_outgoing = or_raise-eq-ok _ EventErrorCode.invalid_pitcher found_outgoing;
      found_incoming = or_raise-eq-ok _ EventErrorCode.invalid_pitcher found_incoming;
      valid = valid;
      changed = ground arith;
    }
