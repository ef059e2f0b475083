-- ===== src/Events/State.antt =====
-- The accepted event, the accepted setup and the game state of src/domain/events/game-events.ts.
-- A JavaScript object used as a map is an association list in insertion order.
use baseballstattrack.Common.{Dict, ℕ, Bool, Option, List, none}
use baseballstattrack.Events.Enums.{
  GameSide, home, away, Position, Base, first, second, third, SchemaVersion, GameStatus, Half,
}
use baseballstattrack.Events.Bodies.{EventBody}

-- `Record<GameSide, A>`
pub record Sides (A : Type 0) : Type 0 where
  pub home_side : A
  pub away_side : A

-- `Record<Base, string | null>`
pub record Bases : Type 0 where
  pub on_first : Option ℕ
  pub on_second : Option ℕ
  pub on_third : Option ℕ

abbrev pub at_side : {A : Type 0} → Sides A → GameSide → A
at_side s home = s.home_side
at_side s away = s.away_side

abbrev pub put_side : {A : Type 0} → GameSide → A → Sides A → Sides A
put_side home a s = record s { home_side = a }
put_side away a s = record s { away_side = a }

abbrev pub at_base : Bases → Base → Option ℕ
at_base b first = b.on_first
at_base b second = b.on_second
at_base b third = b.on_third

abbrev pub put_base : Base → Option ℕ → Bases → Bases
put_base first r b = record b { on_first = r }
put_base second r b = record b { on_second = r }
put_base third r b = record b { on_third = r }

abbrev pub empty_bases : Bases
empty_bases = record { on_first = none; on_second = none; on_third = none }

pub data ActorKind : Type 0 where
  user service system : ActorKind

pub record AcceptedEvent : Type 0 where
  pub id : ℕ
  pub account_id : ℕ
  pub game_id : ℕ
  pub setup_snapshot_id : ℕ
  pub setup_revision : ℕ
  pub sequence : ℕ
  pub schema_version : SchemaVersion
  pub ruleset_version_id : ℕ
  pub play_transaction_id : Option ℕ
  pub component_order : Option ℕ
  pub client_submission_id : ℕ
  pub expected_revision : ℕ
  pub accepted_revision : ℕ
  pub actor_kind : ActorKind
  pub actor_id : ℕ
  pub actor_user_id : Option ℕ
  pub recorded_at : ℕ
  pub accepted_at : ℕ
  pub body : EventBody
  pub pre_state_hash : ℕ
  pub post_state_hash : ℕ

pub record LineupEntry : Type 0 where
  pub player_id : ℕ
  pub batting_order : Option ℕ
  pub position : Option Position
  pub active : Bool

pub record SetupSide : Type 0 where
  pub lineup : List LineupEntry
  pub starting_pitcher_id : ℕ

-- `is_ready` is the field `status`, compared with READY.
pub record AcceptedSetup : Type 0 where
  pub id : ℕ
  pub account_id : ℕ
  pub game_id : ℕ
  pub setup_revision : ℕ
  pub ruleset_version_id : ℕ
  pub scheduled_innings : ℕ
  pub is_ready : Bool
  pub sides : Sides SetupSide

pub record GameState : Type 0 where
  pub account_id : ℕ
  pub game_id : ℕ
  pub setup_snapshot_id : ℕ
  pub setup_revision : ℕ
  pub ruleset_version_id : ℕ
  pub scheduled_innings : ℕ
  pub status : GameStatus
  pub inning : Option ℕ
  pub half : Option Half
  pub outs : ℕ
  pub score : Sides ℕ
  pub bases : Bases
  pub batting_order_index : Sides ℕ
  pub lineups : Sides (List LineupEntry)
  pub participated_players : Sides (List ℕ)
  pub defense : Sides (Dict Position ℕ)
  pub active_pitcher : Sides ℕ
  pub runner_pitcher_responsibility : Dict ℕ ℕ
  pub source_revision : ℕ
  pub last_sequence : ℕ
