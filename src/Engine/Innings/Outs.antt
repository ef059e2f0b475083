-- ===== src/Engine/Innings/Outs.antt =====
-- What `finishOuts` does to the state.
use baseballstattrack.Common.{ℕ, ◌+◌, ◌≤◌, ◌≡◌, if◌then◌else◌, ◌==◌, nat_eq, ok, arith}
use baseballstattrack.Events.Equality.{
  side_eq, position_eq, base_eq, origin_eq, cause_eq, outcome_eq, credit_eq, play_type_eq,
  policy_eq, status_eq, destination_eq,
}
use baseballstattrack.Events.State.{GameState}
use baseballstattrack.Engine.Innings.{end_half_inning, finish_outs}

-- The state that `finishOuts` leaves, when the play has not made an impossible number of outs.
abbrev pub finished : GameState → ℕ → GameState
finished state outs =
    if state.outs + outs == 3
    then end_half_inning (record state { outs = 3 })
    else record state { outs = state.outs + outs }

pub finish_outs-eq-ok :
    (state : GameState) (outs : ℕ) {next : GameState}
    → finish_outs state outs ≡ ok next
    → (state.outs + outs ≤ 3) × (next ≡ finished state outs)
unfolding finish_outs end_half_inning
finish_outs-eq-ok state outs h = ground arith

-- Fewer than three outs stand when the next batter comes up.
pub finished-outs :
    (state : GameState) (outs : ℕ) → state.outs + outs ≤ 3 → (finished state outs).outs ≤ 2
unfolding end_half_inning
finished-outs state outs h = ground arith

pub finished-score : (state : GameState) (outs : ℕ) → (finished state outs).score ≡ state.score
unfolding end_half_inning
finished-score state outs = ground arith
