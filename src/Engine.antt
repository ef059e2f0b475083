-- ===== src/Engine.antt =====
-- The game engine of src/domain/events/game-engine.ts. A function that writes to `state` and may
-- throw returns the new state as a `Result`: a state that a throw leaves behind is never read, since
-- every caller works on a clone or on a state of its own.
pub mod Setup
pub mod Innings
pub mod Movement
pub mod Lifecycle
pub mod Plays
pub mod Roster
pub mod Apply
pub mod Corrections
pub mod Replay
