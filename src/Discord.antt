-- ===== src/Discord.antt =====
-- When Discord updates are sent: src/domain/discord-cadence.ts, src/domain/discord-update-schedule.ts
-- and the retries of src/domain/discord-update-worker.ts.
pub mod Clock
pub mod Schedule
pub mod Retry
