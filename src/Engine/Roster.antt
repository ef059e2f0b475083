-- ===== src/Engine/Roster.antt =====
-- The lineup cases of `applyBody`, src/domain/events/game-engine.ts.
pub mod Frame
pub mod Pitchers
pub mod Runners
use baseballstattrack.Common.{
  ℕ, Bool, true, false, not, ◌&&◌, ◌||◌, Option, none, some, List, [], ◌∷◌, ◌++◌, map,
  if◌then◌else◌, is_some, filter, any, find, update_first, sort_by, compact, ◌==◌, nat_eq, contains,
  distinct, option_beq, Dict, lookup, insert, erase, values, Result, ok, guard, or_raise, ◌>>=◌,
  ◌>>◌, EventErrorCode,
}
use baseballstattrack.Events.Enums.{GameSide, Position, Base, first, second, third}
use baseballstattrack.Events.Equality.{
  side_eq, position_eq, base_eq, origin_eq, cause_eq, outcome_eq, credit_eq, play_type_eq,
  policy_eq, status_eq, destination_eq,
}
use baseballstattrack.Events.State.{
  at_side, put_side, Bases, at_base, put_base, LineupEntry, GameState,
}
use baseballstattrack.Events.Bodies.{Substitution, Assignment, Alignment, PitchingChange}
use baseballstattrack.Engine.Innings.{fielding_side, require_live}

abbrev pub is_player : ℕ → LineupEntry → Bool
is_player player_id entry = entry.player_id == player_id

abbrev pub is_active_player : ℕ → LineupEntry → Bool
is_active_player player_id entry = entry.active && entry.player_id == player_id

-- `removeDefensivePlayer`: every position that the player holds.
abbrev pub without_player : ℕ → Dict Position ℕ → Dict Position ℕ
without_player player_id = filter (λ entry. not (entry.1 == player_id))

abbrev pub put_defense : GameSide → Dict Position ℕ → GameState → GameState
put_defense side defense state = record state { defense = put_side side defense state.defense }

abbrev pub put_lineup : GameSide → List LineupEntry → GameState → GameState
put_lineup side lineup state = record state { lineups = put_side side lineup state.lineups }

abbrev pub add_participant : GameSide → ℕ → GameState → GameState
add_participant side player_id state = record state {
  participated_players =
      put_side side (at_side state.participated_players side ++ player_id ∷ [])
        state.participated_players;
}

-- The first base, in order, that the player holds.
abbrev pub base_held_by : ℕ → Bases → Option Base
base_held_by player_id bases =
    find (λ b. option_beq (at_base bases b) (some player_id)) (first ∷ second ∷ third ∷ [])

-- A position that somebody other than the outgoing player holds.
abbrev pub position_taken : GameState → Substitution → ℕ → Bool
position_taken state s outgoing = elim (lookup s.position (at_side state.defense s.side)) [
  | none ↦ false
  | some holder ↦ not (holder == outgoing)
]

unfoldable pub substitution_invalid : GameState → Substitution → LineupEntry → LineupEntry → Bool
substitution_invalid state s outgoing incoming =
    incoming.active
    || outgoing.player_id == at_side state.active_pitcher s.side
    || s.position == Position.pitcher
    || contains (at_side state.participated_players s.side) incoming.player_id
    || position_taken state s outgoing.player_id

-- The substitute takes over the outgoing player's base, with the pitcher who is responsible.
abbrev pub replace_runner : ℕ → ℕ → Base → ℕ → GameState → GameState
replace_runner outgoing incoming b pitcher_id state = record state {
  bases = put_base b (some incoming) state.bases;
  runner_pitcher_responsibility =
      insert incoming pitcher_id (erase outgoing state.runner_pitcher_responsibility);
}

abbrev pub substitute_lineup : Substitution → LineupEntry → List LineupEntry → List LineupEntry
substitute_lineup s outgoing lineup =
    update_first (is_player s.incoming_player_id)
      (λ entry. record entry {
        active = true;
        batting_order = outgoing.batting_order;
        position = some s.position;
      })
      (update_first (is_active_player s.outgoing_player_id)
        (λ entry. record entry { active = false; position = none }) lineup)

unfoldable pub substitute : GameState → Substitution → LineupEntry → LineupEntry → GameState
substitute state s outgoing incoming =
    let defense =
      insert s.position incoming.player_id
        (without_player outgoing.player_id (at_side state.defense s.side)) in
    add_participant s.side incoming.player_id (
      put_lineup s.side (substitute_lineup s outgoing (at_side state.lineups s.side))
        (put_defense s.side defense state))

-- A substituted runner needs the responsibility of a pitcher to hand on.
unfoldable pub take_base : GameState → ℕ → ℕ → GameState → Result GameState
take_base state outgoing incoming next = elim (base_held_by outgoing state.bases) [
  | none ↦ ok next
  | some b ↦
      or_raise (lookup outgoing state.runner_pitcher_responsibility) EventErrorCode.invalid_pitcher
      >>= λ pitcher_id. ok (replace_runner outgoing incoming b pitcher_id next)
]

unfoldable pub make_substitution : GameState → Substitution → Result GameState
make_substitution state s = do
  require_live state
  let lineup = at_side state.lineups s.side
  outgoing ←
      or_raise (find (is_active_player s.outgoing_player_id) lineup) EventErrorCode.invalid_lineup
  incoming ← or_raise (find (is_player s.incoming_player_id) lineup) EventErrorCode.invalid_lineup
  guard (substitution_invalid state s outgoing incoming) EventErrorCode.invalid_lineup
  take_base state outgoing.player_id incoming.player_id (substitute state s outgoing incoming)

abbrev pub assignment_players : List Assignment → List ℕ
assignment_players = map (λ (a : Assignment). a.player_id)

unfoldable pub alignment_invalid : GameState → Alignment → Bool
alignment_invalid state a =
    not (distinct (assignment_players a.assignments))
    || not (distinct (map (λ (b : Assignment). b.position) a.assignments))
    || any (λ player. not (any (is_active_player player) (at_side state.lineups a.side)))
        (assignment_players a.assignments)

abbrev pub without_players : List ℕ → Dict Position ℕ → Dict Position ℕ
without_players [] defense = defense
without_players (player ∷ players) defense = without_players players (without_player player defense)

-- Fills the positions in turn, and throws at one that is still held.
unfoldable pub assign_positions : List Assignment → Dict Position ℕ → Result (Dict Position ℕ)
assign_positions [] defense = ok defense
assign_positions (a ∷ rest) defense =
    guard (is_some (lookup a.position defense)) EventErrorCode.invalid_lineup
    >> assign_positions rest (insert a.position a.player_id defense)

abbrev pub reposition : List Assignment → List LineupEntry → List LineupEntry
reposition [] lineup = lineup
reposition (a ∷ rest) lineup = reposition rest (
    update_first (is_player a.player_id) (λ entry. record entry { position = some a.position })
      lineup)

unfoldable pub change_alignment : GameState → Alignment → Result GameState
change_alignment state a = do
  require_live state
  guard (not (a.side == fielding_side state)) EventErrorCode.invalid_lineup
  guard (alignment_invalid state a) EventErrorCode.invalid_lineup
  next_defense ←
      assign_positions a.assignments
        (without_players (assignment_players a.assignments) (at_side state.defense a.side))
  guard
      (not (distinct (values next_defense))
        || not (
            option_beq (lookup Position.pitcher next_defense)
              (some (at_side state.active_pitcher a.side))))
      EventErrorCode.invalid_lineup
  ok (
      put_lineup a.side (reposition a.assignments (at_side state.lineups a.side))
        (put_defense a.side next_defense state))

abbrev pub occupied_runners : Bases → List ℕ
occupied_runners bases = compact (bases.on_first ∷ bases.on_second ∷ bases.on_third ∷ [])

-- `[...left].sort().join("\0") === [...right].sort().join("\0")`
abbrev pub list_beq : List ℕ → List ℕ → Bool
list_beq [] [] = true
list_beq (x ∷ xs) (y ∷ ys) = x == y && list_beq xs ys
list_beq _ _ = false

abbrev pub same_ids : List ℕ → List ℕ → Bool
same_ids left right = list_beq (sort_by (λ n. n) left) (sort_by (λ n. n) right)

unfoldable pub pitching_change_invalid :
    GameState → PitchingChange → LineupEntry → LineupEntry → Bool
pitching_change_invalid state c outgoing incoming =
    not (c.side == fielding_side state)
    || not (at_side state.active_pitcher c.side == c.outgoing_pitcher_id)
    || not outgoing.active
    || incoming.player_id == outgoing.player_id
    || not incoming.active
      && contains (at_side state.participated_players c.side) incoming.player_id
    || incoming.active
      && not (is_some incoming.position)
      && is_some outgoing.batting_order
      && is_some incoming.batting_order
    || not (same_ids c.inherited_runner_ids (occupied_runners state.bases))

-- The outgoing pitcher moves to the position that the incoming one leaves, or leaves the game.
abbrev pub retire_pitcher : LineupEntry → LineupEntry → LineupEntry
retire_pitcher incoming entry =
    if incoming.active && is_some incoming.position
    then record entry { position = incoming.position }
    else record entry { active = false; position = none }

abbrev pub install_pitcher : LineupEntry → LineupEntry → LineupEntry
install_pitcher outgoing entry =
    if entry.active then record entry { position = some Position.pitcher } else record entry {
      active = true;
      batting_order = outgoing.batting_order;
      position = some Position.pitcher;
    }

abbrev pub pitcher_defense : PitchingChange → LineupEntry → Dict Position ℕ → Dict Position ℕ
pitcher_defense c incoming defense =
    let vacated =
      without_player c.incoming_pitcher_id (without_player c.outgoing_pitcher_id defense) in
    let swapped =
      if incoming.active
      then elim incoming.position [
        | none ↦ vacated
        | some position ↦ insert position c.outgoing_pitcher_id vacated
      ]
      else vacated in
    insert Position.pitcher c.incoming_pitcher_id swapped

unfoldable pub change_pitcher : GameState → PitchingChange → LineupEntry → LineupEntry → GameState
change_pitcher state c outgoing incoming =
    let lineup = update_first (is_player c.incoming_pitcher_id) (install_pitcher outgoing) (
      update_first (is_player c.outgoing_pitcher_id) (retire_pitcher incoming)
        (at_side state.lineups c.side)) in
    let seated =
      put_lineup c.side lineup
        (put_defense c.side (pitcher_defense c incoming (at_side state.defense c.side)) state) in
    let joined =
      if incoming.active then seated else add_participant c.side incoming.player_id seated in
    record joined { active_pitcher = put_side c.side c.incoming_pitcher_id joined.active_pitcher }

unfoldable pub make_pitching_change : GameState → PitchingChange → Result GameState
make_pitching_change state c = do
  require_live state
  let lineup = at_side state.lineups c.side
  outgoing ← or_raise (find (is_player c.outgoing_pitcher_id) lineup) EventErrorCode.invalid_pitcher
  incoming ← or_raise (find (is_player c.incoming_pitcher_id) lineup) EventErrorCode.invalid_pitcher
  guard (pitching_change_invalid state c outgoing incoming) EventErrorCode.invalid_pitcher
  ok (change_pitcher state c outgoing incoming)
