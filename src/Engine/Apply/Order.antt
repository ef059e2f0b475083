-- ===== src/Engine/Apply/Order.antt =====
-- The runners keep their order through a play.
use baseballstattrack.Common.{nat_eq}
use baseballstattrack.Events.Equality.{
  side_eq, position_eq, base_eq, origin_eq, cause_eq, outcome_eq, credit_eq, play_type_eq,
  policy_eq, status_eq, destination_eq,
}
