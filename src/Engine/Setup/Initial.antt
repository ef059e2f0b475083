-- ===== src/Engine/Setup/Initial.antt =====
-- The accepted setup gives a game in a sound state.
use baseballstattrack.Common.{
  ℕ, ◌≡◌, refl, ◌∙◌, true, false, some, List, [], ◌∷◌, ◌++◌, map, any, compact, nat_eq, contains,
  distinct, lookup, ok, arith,
}
use baseballstattrack.Events.Enums.{home, away, Position}
use baseballstattrack.Events.Equality.{
  side_eq, position_eq, base_eq, origin_eq, cause_eq, outcome_eq, credit_eq, play_type_eq,
  policy_eq, status_eq, destination_eq,
}
use baseballstattrack.Events.State.{LineupEntry, SetupSide, AcceptedSetup, GameState}
use baseballstattrack.Common.{keys, lookup-insert_all}
use baseballstattrack.Engine.Setup.{
  active_players, player_ids, is_starting_pitcher, setup_side_invalid, defense_entries, defense_for,
  initial_state, create_initial_state,
}
use baseballstattrack.Engine.Apply.Soundness.{Sound}

positions : List LineupEntry → List Position
positions lineup = compact (map (λ (entry : LineupEntry). entry.position) (active_players lineup))

keys-defense_entries :
    (lineup : List LineupEntry) → keys (defense_entries lineup) ≡ positions lineup
unfolding positions
keys-defense_entries [] = refl
keys-defense_entries (entry ∷ lineup) = ground (arith, keys-defense_entries lineup)

contains-pitcher :
    (pitcher_id : ℕ) (lineup : List LineupEntry)
    → any (is_starting_pitcher pitcher_id) (active_players lineup) ≡ true
    → contains (positions lineup) Position.pitcher ≡ true
unfolding positions
contains-pitcher pitcher_id [] h = cc
contains-pitcher pitcher_id (entry ∷ lineup) h = ground (arith, contains-pitcher pitcher_id lineup)

-- A lineup has the starting pitcher in the position of pitcher.
pitcher-defense_entries :
    (pitcher_id : ℕ) (lineup : List LineupEntry)
    → any (is_starting_pitcher pitcher_id) (active_players lineup) ≡ true
    → distinct (positions lineup) ≡ true
    → lookup Position.pitcher (defense_entries lineup) ≡ some pitcher_id
unfolding positions
pitcher-defense_entries pitcher_id [] h d = cc
pitcher-defense_entries pitcher_id (entry ∷ lineup) h d =
    ground (arith, pitcher-defense_entries pitcher_id lineup, contains-pitcher pitcher_id lineup)

setup_side-facts :
    (side : SetupSide)
    → setup_side_invalid side ≡ false
    → (distinct (positions side.lineup) ≡ true)
      × (any (is_starting_pitcher side.starting_pitcher_id) (active_players side.lineup) ≡ true)
unfolding setup_side_invalid positions
setup_side-facts side h = ground arith

defense_for-pitcher :
    (side : SetupSide)
    → setup_side_invalid side ≡ false
    → lookup Position.pitcher (defense_for side.lineup) ≡ some side.starting_pitcher_id
unfolding defense_for
defense_for-pitcher side h =
    let (d, a) = setup_side-facts side h in
    let es = defense_entries side.lineup in
    let e = pitcher-defense_entries side.starting_pitcher_id side.lineup a d in
    let apart : distinct (keys es) ≡ true = rw keys-defense_entries d in
    lookup-insert_all Position.pitcher es [] apart ∙ rw e refl

-- What a setup that is accepted has passed.
accepted :
    (setup : AcceptedSetup) (state : GameState)
    → create_initial_state setup ≡ ok state
    → (setup_side_invalid setup.sides.home_side ≡ false)
      × (setup_side_invalid setup.sides.away_side ≡ false)
      × (distinct (player_ids (setup.sides.home_side.lineup ++ setup.sides.away_side.lineup))
          ≡ true)
      × (state ≡ initial_state setup setup.sides.home_side.lineup setup.sides.away_side.lineup)
unfolding create_initial_state
accepted setup state h = ground arith

-- A setup that is accepted starts the game in a sound state, and no player stands in both lineups.
pub create_initial_state-Sound :
    (setup : AcceptedSetup) (state : GameState)
    → create_initial_state setup ≡ ok state
    → Sound state
      × (distinct (player_ids (state.lineups.home_side ++ state.lineups.away_side)) ≡ true)
unfolding initial_state
create_initial_state-Sound setup state h =
    let (home_valid, away_valid, apart, e) = accepted setup state h in
    rw e (
      record {
        outs = omega arith;
        pitchers = elim [
          | home ↦ defense_for-pitcher setup.sides.home_side home_valid
          | away ↦ defense_for-pitcher setup.sides.away_side away_valid
        ];
        runners = record {
          apart = λ b c r hb hc. absurd (ground arith);
          tracked = λ b r hb. absurd (ground arith);
        };
        clock = refl;
      },
      apart,
    )
