-- ===== src/Lib.antt =====
-- Baseball Stat Track: the scoring engine of the application and the statistics derived from it.
--
-- The program records a baseball game as an append-only log of accepted events. An accepted setup
-- gives the initial state; every event names the revision it was made against; the state of a game
-- is the replay of its log, in which corrections suppress earlier events and put others in their
-- place. src/domain/events/game-events.ts declares the events and parses them,
-- src/domain/events/game-engine.ts validates and applies them. src/domain/statistics goes through the
-- steps of a replay and credits every play to the counters of the players.
--
-- Events follow game-events.ts:
--   Events/Enums, Events/Bodies, Events/State: the enumerations, the payloads, `AcceptedEvent`,
--     `AcceptedSetup` and `GameState`;
--   Events/Equality: `===` on the enumerations, and `baseRank` of game-engine.ts;
--   Events/Schema: what the zod schemas check beyond decoding (`superRefine`, `refine`, bounds);
--   Events/Parse: `scoringMovements`, `validateVersionedRunClassifications`, `parseEventBody`,
--     the envelope schema and `parseEvent`.
-- Engine follows game-engine.ts:
--   Engine/Setup: `validateSetupSide` and `createInitialState`;
--   Engine/Innings: `battingSide`, `fieldingSide`, `currentBatter`, `requireLive`, `finishOuts`;
--   Engine/Movement: `applyMovements`, its checks in their order and then its writes;
--   Engine/Lifecycle, Engine/Plays, Engine/Roster: the cases of `applyBody`;
--   Engine/Apply: `applyBody`, `applyEvent`, `previewEventBody` and the envelope checks;
--   Engine/Corrections: `resolveCorrections` and `resolveEffectiveEvents`;
--   Engine/Replay: `replayEffectiveWithTimeline`, `deriveEventStates` and `replayGame`.
-- Statistics follows src/domain/statistics:
--   Statistics/Rates: `exactRate`, `addExactRates` and `greatestCommonDivisor` of statistic-values.ts;
--   Statistics/Counters, Statistics/PlayerRates: the counters of game-statistics.ts, and the rates
--     derived from them with their checks;
--   Statistics/Tally: the state of the loop of `deriveGameStatistics`, `battingFor` and its kin, and
--     `applyCountingRun`;
--   Statistics/Plays, Statistics/Credits, Statistics/Steps: `applyPlateOutcome`, `creditOutPath`, the
--     fielding credits, and the cases of the loop;
--   Statistics/Derive, Statistics/Game: the lines, the teams, the reconciliation and the projection.
--   Statistics/Season: season-statistics.ts.
-- EventLog is `summarizeEventLog` of src/domain/events/event-log.ts.
-- Delegation follows src/domain/league-delegation.ts: Delegation/Policy its capabilities and their
-- policies, Delegation/Evidence the evidence and the shapes of scopes, Delegation/Evaluation
-- `evaluateLeagueDelegation` and the audit record.
-- Discord holds the scheduling of updates:
--   Discord/Schedule: src/domain/discord-update-schedule.ts; Discord/Retry: `discordUpdateRetryAt` of
--     src/domain/discord-update-worker.ts; Discord/Clock: `minuteOfDay` and `timeOfDay` of
--     src/domain/discord-cadence.ts.
-- The child modules of these hold their proofs. Common holds what they share: tests on numbers, array
-- methods, dictionaries, and the computations that may throw. Tests holds small games and each
-- theorem at a concrete input.
--
-- How the code is translated:
--   * A function that writes to `state` and may throw gives the new state or the error. The state that
--     a throw leaves behind is not kept: every caller works on a clone or on a state of its own.
--     `type_error` is the TypeError of reading a field of `undefined`.
--   * Identifiers, reason codes, times and hashes are trimmed texts that the code compares for equality
--     and nothing else; numbers stand for them. Identifiers are not empty, and no identifier holds a
--     NUL character or names a property of the prototype of objects, which the code relies on where
--     it joins identifiers by NUL and uses them as keys. Where the code sorts identifiers, it does so
--     to compare two collections, or to list players and games in a fixed order, which is here the
--     order of the numbers.
--   * Decoding by zod and its formats (strict objects, trimming, dates, the form of hashes) is done
--     before the model begins. An event is of a known type and of a version from 1 to 3, so the
--     errors of unsupported types and versions do not arise.
--   * Quantities are natural numbers, which a double holds exactly in the range of the program.
--   * An object or a `Map` used as a dictionary is an association list in insertion order.
--   * `stateHash`, a SHA-256 digest of the canonical text, is a parameter of the functions that use it.
--   * `is_ready` of a setup is its `status` compared with READY. The eight events that a correction
--     may put in place of others are one constructor, `play`, of `EventBody`.
--   * A test for safe integers is made on the exact number: rounding to a double is monotone and leaves
--     2^53 alone, so a sum or a product is rounded to a safe integer only if it is one.
--   * A counter object that `battingFor` and its kin return, and that is written later, is the entry of
--     its player in the tallies. `is_verified` is `verificationStatus`, and `seasonEligibility` as well.
--   * The empty identifier, which only the input of a season is tested for, is 0.
--   * A `Date` is its number of milliseconds since 1970, and a text that is read as a time is the list of
--     its UTF-16 code units. The minute of the day in a time zone, `Intl.DateTimeFormat`, is a
--     parameter; one theorem takes a zone that keeps its offset.
--   * In the evidence of a delegation an empty text is 0 and an invalid `Date` is none. No identifier holds
--     a colon, so the texts that `scopeIdentity` joins are compared part by part, null as empty text.
-- Every loop goes through a list but Euclid's algorithm, which is recursion on the accessibility of its
-- second number, the printing of a number, which is recursion on the accessibility of the number, and
-- `scan`, which has its 11520 turns in the source: no fuel is added.
--
-- Not modelled: the canonical text under `stateHash`, the texts of error messages and their context,
-- the texts that rates are shown as (`formatExactRate`, `formatInningsPitched`), the reports
-- (src/domain/reports), the preparation of setups (src/domain/setup), fantasy leagues, the content
-- and routing of Discord updates, notifications and the other subsystems of src/domain, and all of
-- the server, the database and the user interface.

pub mod Common
pub mod Events
pub mod Engine
pub mod Statistics
pub mod EventLog
pub mod Discord
pub mod Delegation
mod Tests
