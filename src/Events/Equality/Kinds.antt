-- ===== src/Events/Equality/Kinds.antt =====
-- `===` on the kinds of fielding credits, runner plays and policies, and on statuses.
use baseballstattrack.Common.{ℕ, zero, suc, ◌≡◌, refl, ◌↔◌, true, nat_beq, Eq, by_code_iff}
use baseballstattrack.Events.Enums.{FieldingCreditKind, PlayType, Policy, GameStatus}

abbrev pub credit_code : FieldingCreditKind → ℕ
credit_code FieldingCreditKind.putout = 0
credit_code FieldingCreditKind.assist = 1
credit_code FieldingCreditKind.error = 2

credit_decode : ℕ → FieldingCreditKind
credit_decode zero = FieldingCreditKind.putout
credit_decode (suc zero) = FieldingCreditKind.assist
credit_decode _ = FieldingCreditKind.error

credit_decode-code : (a : FieldingCreditKind) → credit_decode (credit_code a) ≡ a
unfolding credit_decode
credit_decode-code FieldingCreditKind.putout = refl
credit_decode-code FieldingCreditKind.assist = refl
credit_decode-code FieldingCreditKind.error = refl

pub credit_beq_iff :
    (a b : FieldingCreditKind) → (nat_beq (credit_code a) (credit_code b) ≡ true) ↔ (a ≡ b)
credit_beq_iff = by_code_iff credit_code credit_decode credit_decode-code

instance abbrev pub credit_eq : Eq FieldingCreditKind
credit_eq = record {
  beq = λ a b. nat_beq (credit_code a) (credit_code b);
  beq_iff = credit_beq_iff;
}

abbrev pub play_type_code : PlayType → ℕ
play_type_code PlayType.optional_advance = 0
play_type_code PlayType.error = 1
play_type_code PlayType.stolen_base = 2
play_type_code PlayType.caught_stealing = 3
play_type_code PlayType.pickoff = 4
play_type_code PlayType.runner_out = 5
play_type_code PlayType.wild_pitch = 6
play_type_code PlayType.passed_ball = 7

play_type_decode : ℕ → PlayType
play_type_decode zero = PlayType.optional_advance
play_type_decode (suc zero) = PlayType.error
play_type_decode (suc (suc zero)) = PlayType.stolen_base
play_type_decode (suc (suc (suc zero))) = PlayType.caught_stealing
play_type_decode (suc (suc (suc (suc zero)))) = PlayType.pickoff
play_type_decode (suc (suc (suc (suc (suc zero))))) = PlayType.runner_out
play_type_decode (suc (suc (suc (suc (suc (suc zero)))))) = PlayType.wild_pitch
play_type_decode _ = PlayType.passed_ball

play_type_decode-code : (a : PlayType) → play_type_decode (play_type_code a) ≡ a
unfolding play_type_decode
play_type_decode-code PlayType.optional_advance = refl
play_type_decode-code PlayType.error = refl
play_type_decode-code PlayType.stolen_base = refl
play_type_decode-code PlayType.caught_stealing = refl
play_type_decode-code PlayType.pickoff = refl
play_type_decode-code PlayType.runner_out = refl
play_type_decode-code PlayType.wild_pitch = refl
play_type_decode-code PlayType.passed_ball = refl

pub play_type_beq_iff :
    (a b : PlayType) → (nat_beq (play_type_code a) (play_type_code b) ≡ true) ↔ (a ≡ b)
play_type_beq_iff = by_code_iff play_type_code play_type_decode play_type_decode-code

instance abbrev pub play_type_eq : Eq PlayType
play_type_eq = record {
  beq = λ a b. nat_beq (play_type_code a) (play_type_code b);
  beq_iff = play_type_beq_iff;
}

abbrev pub policy_code : Policy → ℕ
policy_code Policy.replace_play = 0
policy_code Policy.replace_event_range = 1
policy_code Policy.replace_judgment = 2
policy_code Policy.reverse_events = 3

policy_decode : ℕ → Policy
policy_decode zero = Policy.replace_play
policy_decode (suc zero) = Policy.replace_event_range
policy_decode (suc (suc zero)) = Policy.replace_judgment
policy_decode _ = Policy.reverse_events

policy_decode-code : (a : Policy) → policy_decode (policy_code a) ≡ a
unfolding policy_decode
policy_decode-code Policy.replace_play = refl
policy_decode-code Policy.replace_event_range = refl
policy_decode-code Policy.replace_judgment = refl
policy_decode-code Policy.reverse_events = refl

pub policy_beq_iff : (a b : Policy) → (nat_beq (policy_code a) (policy_code b) ≡ true) ↔ (a ≡ b)
policy_beq_iff = by_code_iff policy_code policy_decode policy_decode-code

instance abbrev pub policy_eq : Eq Policy
policy_eq = record {
  beq = λ a b. nat_beq (policy_code a) (policy_code b);
  beq_iff = policy_beq_iff;
}

abbrev pub status_code : GameStatus → ℕ
status_code GameStatus.ready = 0
status_code GameStatus.in_progress = 1
status_code GameStatus.suspended = 2
status_code GameStatus.completed = 3
status_code GameStatus.verified = 4
status_code GameStatus.corrected = 5
status_code GameStatus.abandoned = 6
status_code GameStatus.cancelled = 7

status_decode : ℕ → GameStatus
status_decode zero = GameStatus.ready
status_decode (suc zero) = GameStatus.in_progress
status_decode (suc (suc zero)) = GameStatus.suspended
status_decode (suc (suc (suc zero))) = GameStatus.completed
status_decode (suc (suc (suc (suc zero)))) = GameStatus.verified
status_decode (suc (suc (suc (suc (suc zero))))) = GameStatus.corrected
status_decode (suc (suc (suc (suc (suc (suc zero)))))) = GameStatus.abandoned
status_decode _ = GameStatus.cancelled

status_decode-code : (a : GameStatus) → status_decode (status_code a) ≡ a
unfolding status_decode
status_decode-code GameStatus.ready = refl
status_decode-code GameStatus.in_progress = refl
status_decode-code GameStatus.suspended = refl
status_decode-code GameStatus.completed = refl
status_decode-code GameStatus.verified = refl
status_decode-code GameStatus.corrected = refl
status_decode-code GameStatus.abandoned = refl
status_decode-code GameStatus.cancelled = refl

pub status_beq_iff : (a b : GameStatus) → (nat_beq (status_code a) (status_code b) ≡ true) ↔ (a ≡ b)
status_beq_iff = by_code_iff status_code status_decode status_decode-code

instance abbrev pub status_eq : Eq GameStatus
status_eq = record {
  beq = λ a b. nat_beq (status_code a) (status_code b);
  beq_iff = status_beq_iff;
}
