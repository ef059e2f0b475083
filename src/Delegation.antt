-- ===== src/Delegation.antt =====
-- Who may act on behalf of an account: src/domain/league-delegation.ts.
pub mod Policy
pub mod Evidence
pub mod Evaluation
pub mod Authority
pub mod Allowed
pub mod Authorization
