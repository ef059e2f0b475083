-- ===== src/Events.antt =====
-- The game-event vocabulary of src/domain/events/game-events.ts: its types, the semantic checks of
-- its schemas, and the parser of event bodies.
pub mod Enums
pub mod Equality
pub mod Bodies
pub mod State
pub mod Schema
pub mod Parse
