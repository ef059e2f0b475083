-- ===== src/Engine/Roster/Pitchers.antt =====
-- The active pitcher holds the position of pitcher, through every lineup operation.
use baseballstattrack.Common.{
  ℕ, ◌≡◌, ◌≢◌, refl, false, some, List, [], ◌∷◌, find, nat_eq, Dict, lookup, ok, arith,
}
use baseballstattrack.Events.Enums.{GameSide, Position}
use baseballstattrack.Events.Equality.{
  side_eq, position_eq, base_eq, origin_eq, cause_eq, outcome_eq, credit_eq, play_type_eq,
  policy_eq, status_eq, destination_eq,
}
use baseballstattrack.Events.State.{at_side, LineupEntry, GameState}
use baseballstattrack.Events.Bodies.{Substitution, Alignment, PitchingChange}
use baseballstattrack.Common.{lookup-insert}
use baseballstattrack.Engine.Roster.Frame.{
  make_substitution-Substituted, make_pitching_change-PitcherChanged,
}
use baseballstattrack.Engine.Roster.{
  take_base, is_active_player, without_player, substitution_invalid, substitute, make_substitution,
  change_alignment, change_pitcher, make_pitching_change, pitcher_defense,
}

-- `state.defense[side].PITCHER === state.activePitcher[side]`
abbrev pub PitcherPlaced : GameState → GameSide → Type 0
PitcherPlaced state side =
    lookup Position.pitcher (at_side state.defense side) ≡ some (at_side state.active_pitcher side)

lookup-without_player :
    (k : Position) (player v : ℕ) (d : Dict Position ℕ)
    → lookup k d ≡ some v
    → v ≢ player
    → lookup k (without_player player d) ≡ some v
lookup-without_player k player v [] h ne = cc
lookup-without_player k player v ((j, w) ∷ d) h ne =
    ground (arith, lookup-without_player k player v d)

find-is_active_player :
    (player : ℕ) (lineup : List LineupEntry) (entry : LineupEntry)
    → find (is_active_player player) lineup ≡ some entry
    → entry.player_id ≡ player
find-is_active_player player [] entry h = cc
find-is_active_player player (e ∷ lineup) entry h =
    ground (arith, find-is_active_player player lineup entry)

substitute-PitcherPlaced :
    (state : GameState) (s : Substitution) (outgoing incoming : LineupEntry) (side : GameSide)
    → substitution_invalid state s outgoing incoming ≡ false
    → PitcherPlaced state side
    → PitcherPlaced (substitute state s outgoing incoming) side
unfolding substitute substitution_invalid
substitute-PitcherPlaced state s outgoing incoming side valid h = ground (
  arith,
  lookup-insert Position.pitcher s.position incoming.player_id
      (without_player outgoing.player_id (at_side state.defense s.side)),
  lookup-without_player Position.pitcher outgoing.player_id (at_side state.active_pitcher s.side)
      (at_side state.defense s.side),
)

pub substitution-PitcherPlaced :
    (state : GameState) (s : Substitution) (next : GameState) (side : GameSide)
    → make_substitution state s ≡ ok next
    → PitcherPlaced state side
    → PitcherPlaced next side
unfolding take_base
substitution-PitcherPlaced state s next side h p =
    let r = make_substitution-Substituted state s h in
    ground (arith, r.placed, substitute-PitcherPlaced state s r.outgoing r.incoming side r.valid p)

pub alignment-PitcherPlaced :
    (state : GameState) (a : Alignment) (next : GameState) (side : GameSide)
    → change_alignment state a ≡ ok next
    → PitcherPlaced state side
    → PitcherPlaced next side
unfolding change_alignment
alignment-PitcherPlaced state a next side h p = ground arith

pitcher-pitcher_defense :
    (c : PitchingChange) (incoming : LineupEntry) (d : Dict Position ℕ)
    → lookup Position.pitcher (pitcher_defense c incoming d) ≡ some c.incoming_pitcher_id
pitcher-pitcher_defense c incoming d = rw lookup-insert refl

pub pitching_change-PitcherPlaced :
    (state : GameState) (c : PitchingChange) (next : GameState) (side : GameSide)
    → make_pitching_change state c ≡ ok next
    → PitcherPlaced state side
    → PitcherPlaced next side
unfolding change_pitcher
pitching_change-PitcherPlaced state c next side h p =
    let r = make_pitching_change-PitcherChanged state c h in
    ground (arith, r.changed, pitcher-pitcher_defense c r.incoming (at_side state.defense c.side))
