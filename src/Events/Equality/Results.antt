-- ===== src/Events/Equality/Results.antt =====
-- `===` on the causes of movements and the outcomes of plate appearances.
use baseballstattrack.Common.{ℕ, zero, suc, ◌≡◌, refl, ◌↔◌, true, nat_beq, Eq, by_code_iff}
use baseballstattrack.Events.Enums.{MovementCause, Outcome}

abbrev pub cause_code : MovementCause → ℕ
cause_code MovementCause.hit = 0
cause_code MovementCause.forced_advance = 1
cause_code MovementCause.optional_advance = 2
cause_code MovementCause.batter_result = 3
cause_code MovementCause.fielders_choice = 4
cause_code MovementCause.error = 5
cause_code MovementCause.sacrifice = 6
cause_code MovementCause.stolen_base = 7
cause_code MovementCause.caught_stealing = 8
cause_code MovementCause.pickoff = 9
cause_code MovementCause.runner_out = 10
cause_code MovementCause.wild_pitch = 11
cause_code MovementCause.passed_ball = 12
cause_code MovementCause.award = 13
cause_code MovementCause.correction = 14

cause_decode : ℕ → MovementCause
cause_decode zero = MovementCause.hit
cause_decode (suc zero) = MovementCause.forced_advance
cause_decode (suc (suc zero)) = MovementCause.optional_advance
cause_decode (suc (suc (suc zero))) = MovementCause.batter_result
cause_decode (suc (suc (suc (suc zero)))) = MovementCause.fielders_choice
cause_decode (suc (suc (suc (suc (suc zero))))) = MovementCause.error
cause_decode (suc (suc (suc (suc (suc (suc zero)))))) = MovementCause.sacrifice
cause_decode (suc (suc (suc (suc (suc (suc (suc zero))))))) = MovementCause.stolen_base
cause_decode (suc (suc (suc (suc (suc (suc (suc (suc zero)))))))) = MovementCause.caught_stealing
cause_decode (suc (suc (suc (suc (suc (suc (suc (suc (suc zero))))))))) = MovementCause.pickoff
cause_decode (suc (suc (suc (suc (suc (suc (suc (suc (suc (suc zero)))))))))) =
    MovementCause.runner_out
cause_decode (suc (suc (suc (suc (suc (suc (suc (suc (suc (suc (suc zero))))))))))) =
    MovementCause.wild_pitch
cause_decode (suc (suc (suc (suc (suc (suc (suc (suc (suc (suc (suc (suc zero)))))))))))) =
    MovementCause.passed_ball
cause_decode (suc (suc (suc (suc (suc (suc (suc (suc (suc (suc (suc (suc (suc zero))))))))))))) =
    MovementCause.award
cause_decode _ = MovementCause.correction

cause_decode-code : (a : MovementCause) → cause_decode (cause_code a) ≡ a
unfolding cause_decode
cause_decode-code MovementCause.hit = refl
cause_decode-code MovementCause.forced_advance = refl
cause_decode-code MovementCause.optional_advance = refl
cause_decode-code MovementCause.batter_result = refl
cause_decode-code MovementCause.fielders_choice = refl
cause_decode-code MovementCause.error = refl
cause_decode-code MovementCause.sacrifice = refl
cause_decode-code MovementCause.stolen_base = refl
cause_decode-code MovementCause.caught_stealing = refl
cause_decode-code MovementCause.pickoff = refl
cause_decode-code MovementCause.runner_out = refl
cause_decode-code MovementCause.wild_pitch = refl
cause_decode-code MovementCause.passed_ball = refl
cause_decode-code MovementCause.award = refl
cause_decode-code MovementCause.correction = refl

pub cause_beq_iff : (a b : MovementCause) → (nat_beq (cause_code a) (cause_code b) ≡ true) ↔ (a ≡ b)
cause_beq_iff = by_code_iff cause_code cause_decode cause_decode-code

instance abbrev pub cause_eq : Eq MovementCause
cause_eq = record { beq = λ a b. nat_beq (cause_code a) (cause_code b); beq_iff = cause_beq_iff }

abbrev pub outcome_code : Outcome → ℕ
outcome_code Outcome.walk = 0
outcome_code Outcome.intentional_walk = 1
outcome_code Outcome.hit_by_pitch = 2
outcome_code Outcome.strikeout_swinging = 3
outcome_code Outcome.strikeout_looking = 4
outcome_code Outcome.single = 5
outcome_code Outcome.double = 6
outcome_code Outcome.triple = 7
outcome_code Outcome.home_run = 8
outcome_code Outcome.batter_out = 9
outcome_code Outcome.fielder_choice = 10
outcome_code Outcome.reached_on_error = 11
outcome_code Outcome.sacrifice_bunt = 12
outcome_code Outcome.sacrifice_fly = 13
outcome_code Outcome.interference = 14

outcome_decode : ℕ → Outcome
outcome_decode zero = Outcome.walk
outcome_decode (suc zero) = Outcome.intentional_walk
outcome_decode (suc (suc zero)) = Outcome.hit_by_pitch
outcome_decode (suc (suc (suc zero))) = Outcome.strikeout_swinging
outcome_decode (suc (suc (suc (suc zero)))) = Outcome.strikeout_looking
outcome_decode (suc (suc (suc (suc (suc zero))))) = Outcome.single
outcome_decode (suc (suc (suc (suc (suc (suc zero)))))) = Outcome.double
outcome_decode (suc (suc (suc (suc (suc (suc (suc zero))))))) = Outcome.triple
outcome_decode (suc (suc (suc (suc (suc (suc (suc (suc zero)))))))) = Outcome.home_run
outcome_decode (suc (suc (suc (suc (suc (suc (suc (suc (suc zero))))))))) = Outcome.batter_out
outcome_decode (suc (suc (suc (suc (suc (suc (suc (suc (suc (suc zero)))))))))) =
    Outcome.fielder_choice
outcome_decode (suc (suc (suc (suc (suc (suc (suc (suc (suc (suc (suc zero))))))))))) =
    Outcome.reached_on_error
outcome_decode (suc (suc (suc (suc (suc (suc (suc (suc (suc (suc (suc (suc zero)))))))))))) =
    Outcome.sacrifice_bunt
outcome_decode (suc (suc (suc (suc (suc (suc (suc (suc (suc (suc (suc (suc (suc zero))))))))))))) =
    Outcome.sacrifice_fly
outcome_decode _ = Outcome.interference

outcome_decode-code : (a : Outcome) → outcome_decode (outcome_code a) ≡ a
unfolding outcome_decode
outcome_decode-code Outcome.walk = refl
outcome_decode-code Outcome.intentional_walk = refl
outcome_decode-code Outcome.hit_by_pitch = refl
outcome_decode-code Outcome.strikeout_swinging = refl
outcome_decode-code Outcome.strikeout_looking = refl
outcome_decode-code Outcome.single = refl
outcome_decode-code Outcome.double = refl
outcome_decode-code Outcome.triple = refl
outcome_decode-code Outcome.home_run = refl
outcome_decode-code Outcome.batter_out = refl
outcome_decode-code Outcome.fielder_choice = refl
outcome_decode-code Outcome.reached_on_error = refl
outcome_decode-code Outcome.sacrifice_bunt = refl
outcome_decode-code Outcome.sacrifice_fly = refl
outcome_decode-code Outcome.interference = refl

pub outcome_beq_iff : (a b : Outcome) → (nat_beq (outcome_code a) (outcome_code b) ≡ true) ↔ (a ≡ b)
outcome_beq_iff = by_code_iff outcome_code outcome_decode outcome_decode-code

instance abbrev pub outcome_eq : Eq Outcome
outcome_eq = record {
  beq = λ a b. nat_beq (outcome_code a) (outcome_code b);
  beq_iff = outcome_beq_iff;
}
