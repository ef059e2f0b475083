-- ===== src/Tests.antt =====
-- Concrete games, and each theorem at an input that meets its hypotheses.
mod Game
mod Runs
mod Statistics
mod Season
mod Summary
mod Discord
mod Delegation
mod Witnesses
