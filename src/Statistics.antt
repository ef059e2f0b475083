-- ===== src/Statistics.antt =====
-- The statistics of src/domain/statistics, derived from the replay of a game.
pub mod Rates
pub mod Counters
pub mod PlayerRates
pub mod Tally
pub mod Plays
pub mod Credits
pub mod Steps
pub mod Derive
pub mod Game
pub mod Season
