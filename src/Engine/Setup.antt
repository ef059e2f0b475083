-- ===== src/Engine/Setup.antt =====
-- `createInitialState` of src/domain/events/game-engine.ts.
pub mod Initial
use baseballstattrack.Common.{
  ℕ, ◌+◌, Bool, not, ◌&&◌, ◌||◌, none, some, List, [], ◌∷◌, ◌++◌, map, length, ltb, if◌then◌else◌,
  is_some, filter, any, sort_by, get_or, compact, any_indexed, ◌==◌, nat_eq, distinct, option_beq,
  Dict, from_entries, Result, ok, guard, ◌>>=◌, ◌>>◌, EventErrorCode,
}
use baseballstattrack.Events.Enums.{Position, GameStatus}
use baseballstattrack.Events.Equality.{
  side_eq, position_eq, base_eq, origin_eq, cause_eq, outcome_eq, credit_eq, play_type_eq,
  policy_eq, status_eq,
}
use baseballstattrack.Events.State.{empty_bases, LineupEntry, SetupSide, AcceptedSetup, GameState}

abbrev pub active_players : List LineupEntry → List LineupEntry
active_players = filter (λ (entry : LineupEntry). entry.active)

-- `left.battingOrder! - right.battingOrder!`: null counts as 0.
abbrev pub by_batting_order : LineupEntry → ℕ
by_batting_order entry = get_or entry.batting_order 0

abbrev pub in_batting_order : List LineupEntry → List LineupEntry
in_batting_order lineup =
    sort_by by_batting_order (filter (λ (entry : LineupEntry). is_some entry.batting_order) lineup)

abbrev pub player_ids : List LineupEntry → List ℕ
player_ids = map (λ (entry : LineupEntry). entry.player_id)

abbrev pub is_starting_pitcher : ℕ → LineupEntry → Bool
is_starting_pitcher pitcher_id entry =
    entry.player_id == pitcher_id && option_beq entry.position (some Position.pitcher)

-- The five conditions under which `validateSetupSide` throws.
unfoldable pub setup_side_invalid : SetupSide → Bool
setup_side_invalid side =
    length (active_players side.lineup) == 0
    || not (distinct (player_ids side.lineup))
    || not (
        distinct
          (compact (map (λ (entry : LineupEntry). entry.position) (active_players side.lineup))))
    || any_indexed
        (λ (entry : LineupEntry) index. not (option_beq entry.batting_order (some (index + 1)))) 0
        (in_batting_order (active_players side.lineup))
    || not (any (is_starting_pitcher side.starting_pitcher_id) (active_players side.lineup))

unfoldable pub validate_setup_side : SetupSide → Result (List LineupEntry)
validate_setup_side side =
    guard (setup_side_invalid side) EventErrorCode.invalid_lineup >> ok side.lineup

abbrev pub defense_entries : List LineupEntry → List (Position × ℕ)
defense_entries [] = []
defense_entries (entry ∷ lineup) =
    let rest = defense_entries lineup in
    if entry.active
    then elim entry.position [ none ↦ rest | some position ↦ (position, entry.player_id) ∷ rest ]
    else rest

unfoldable pub defense_for : List LineupEntry → Dict Position ℕ
defense_for lineup = from_entries (defense_entries lineup)

unfoldable pub initial_state : AcceptedSetup → List LineupEntry → List LineupEntry → GameState
unfolding defense_for
initial_state setup home_lineup away_lineup = record {
  account_id = setup.account_id;
  game_id = setup.game_id;
  setup_snapshot_id = setup.id;
  setup_revision = setup.setup_revision;
  ruleset_version_id = setup.ruleset_version_id;
  scheduled_innings = setup.scheduled_innings;
  status = GameStatus.ready;
  inning = none;
  half = none;
  outs = 0;
  score = record { home_side = 0; away_side = 0 };
  bases = empty_bases;
  batting_order_index = record { home_side = 0; away_side = 0 };
  lineups = record { home_side = home_lineup; away_side = away_lineup };
  participated_players = record {
    home_side = player_ids (active_players home_lineup);
    away_side = player_ids (active_players away_lineup);
  };
  defense = record { home_side = defense_for home_lineup; away_side = defense_for away_lineup };
  active_pitcher = record {
    home_side = setup.sides.home_side.starting_pitcher_id;
    away_side = setup.sides.away_side.starting_pitcher_id;
  };
  runner_pitcher_responsibility = [];
  source_revision = 0;
  last_sequence = 0;
}

unfoldable pub create_initial_state : AcceptedSetup → Result GameState
unfolding validate_setup_side
create_initial_state setup = do
  guard (not setup.is_ready || ltb setup.setup_revision 1 || ltb setup.scheduled_innings 1)
      EventErrorCode.setup_not_ready
  home_lineup ← validate_setup_side setup.sides.home_side
  away_lineup ← validate_setup_side setup.sides.away_side
  guard (not (distinct (player_ids (home_lineup ++ away_lineup)))) EventErrorCode.invalid_lineup
  ok (initial_state setup home_lineup away_lineup)
