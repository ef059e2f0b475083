-- ===== src/Events/Equality/Places.antt =====
-- `===` on sides, positions, bases and the ends of a movement; `baseRank` of game-engine.ts.
use baseballstattrack.Common.{ℕ, zero, suc, ◌≡◌, refl, ◌↔◌, true, nat_beq, Eq, by_code_iff}
use baseballstattrack.Events.Enums.{GameSide, Position, Base, RunnerOrigin, RunnerDestination}

abbrev pub side_code : GameSide → ℕ
side_code GameSide.home = 0
side_code GameSide.away = 1

side_decode : ℕ → GameSide
side_decode zero = GameSide.home
side_decode _ = GameSide.away

side_decode-code : (a : GameSide) → side_decode (side_code a) ≡ a
unfolding side_decode
side_decode-code GameSide.home = refl
side_decode-code GameSide.away = refl

pub side_beq_iff : (a b : GameSide) → (nat_beq (side_code a) (side_code b) ≡ true) ↔ (a ≡ b)
side_beq_iff = by_code_iff side_code side_decode side_decode-code

instance abbrev pub side_eq : Eq GameSide
side_eq = record { beq = λ a b. nat_beq (side_code a) (side_code b); beq_iff = side_beq_iff }

abbrev pub position_code : Position → ℕ
position_code Position.pitcher = 0
position_code Position.catcher = 1
position_code Position.first_base = 2
position_code Position.second_base = 3
position_code Position.third_base = 4
position_code Position.shortstop = 5
position_code Position.left_field = 6
position_code Position.center_field = 7
position_code Position.right_field = 8
position_code Position.designated_hitter = 9
position_code Position.extra_hitter = 10

position_decode : ℕ → Position
position_decode zero = Position.pitcher
position_decode (suc zero) = Position.catcher
position_decode (suc (suc zero)) = Position.first_base
position_decode (suc (suc (suc zero))) = Position.second_base
position_decode (suc (suc (suc (suc zero)))) = Position.third_base
position_decode (suc (suc (suc (suc (suc zero))))) = Position.shortstop
position_decode (suc (suc (suc (suc (suc (suc zero)))))) = Position.left_field
position_decode (suc (suc (suc (suc (suc (suc (suc zero))))))) = Position.center_field
position_decode (suc (suc (suc (suc (suc (suc (suc (suc zero)))))))) = Position.right_field
position_decode (suc (suc (suc (suc (suc (suc (suc (suc (suc zero))))))))) =
    Position.designated_hitter
position_decode _ = Position.extra_hitter

position_decode-code : (a : Position) → position_decode (position_code a) ≡ a
unfolding position_decode
position_decode-code Position.pitcher = refl
position_decode-code Position.catcher = refl
position_decode-code Position.first_base = refl
position_decode-code Position.second_base = refl
position_decode-code Position.third_base = refl
position_decode-code Position.shortstop = refl
position_decode-code Position.left_field = refl
position_decode-code Position.center_field = refl
position_decode-code Position.right_field = refl
position_decode-code Position.designated_hitter = refl
position_decode-code Position.extra_hitter = refl

pub position_beq_iff :
    (a b : Position) → (nat_beq (position_code a) (position_code b) ≡ true) ↔ (a ≡ b)
position_beq_iff = by_code_iff position_code position_decode position_decode-code

instance abbrev pub position_eq : Eq Position
position_eq = record {
  beq = λ a b. nat_beq (position_code a) (position_code b);
  beq_iff = position_beq_iff;
}

abbrev pub base_code : Base → ℕ
base_code Base.first = 0
base_code Base.second = 1
base_code Base.third = 2

base_decode : ℕ → Base
base_decode zero = Base.first
base_decode (suc zero) = Base.second
base_decode _ = Base.third

base_decode-code : (a : Base) → base_decode (base_code a) ≡ a
unfolding base_decode
base_decode-code Base.first = refl
base_decode-code Base.second = refl
base_decode-code Base.third = refl

pub base_beq_iff : (a b : Base) → (nat_beq (base_code a) (base_code b) ≡ true) ↔ (a ≡ b)
base_beq_iff = by_code_iff base_code base_decode base_decode-code

instance abbrev pub base_eq : Eq Base
base_eq = record { beq = λ a b. nat_beq (base_code a) (base_code b); beq_iff = base_beq_iff }

-- `baseRank` of a runner's origin.
abbrev pub origin_code : RunnerOrigin → ℕ
origin_code RunnerOrigin.batter = 0
origin_code (RunnerOrigin.on b) = suc (base_code b)

origin_decode : ℕ → RunnerOrigin
origin_decode zero = RunnerOrigin.batter
origin_decode (suc n) = RunnerOrigin.on (base_decode n)

origin_decode-code : (o : RunnerOrigin) → origin_decode (origin_code o) ≡ o
unfolding origin_decode base_decode
origin_decode-code RunnerOrigin.batter = refl
origin_decode-code (RunnerOrigin.on Base.first) = refl
origin_decode-code (RunnerOrigin.on Base.second) = refl
origin_decode-code (RunnerOrigin.on Base.third) = refl

pub origin_beq_iff :
    (a b : RunnerOrigin) → (nat_beq (origin_code a) (origin_code b) ≡ true) ↔ (a ≡ b)
origin_beq_iff = by_code_iff origin_code origin_decode origin_decode-code

instance abbrev pub origin_eq : Eq RunnerOrigin
origin_eq = record {
  beq = λ a b. nat_beq (origin_code a) (origin_code b);
  beq_iff = origin_beq_iff;
}

-- `baseRank` of a destination, and a number for the out.
abbrev pub destination_code : RunnerDestination → ℕ
destination_code (RunnerDestination.safe_at b) = suc (base_code b)
destination_code RunnerDestination.home_plate = 4
destination_code RunnerDestination.out = 5

destination_decode : ℕ → RunnerDestination
destination_decode (suc (suc (suc (suc zero)))) = RunnerDestination.home_plate
destination_decode (suc (suc (suc (suc (suc n))))) = RunnerDestination.out
destination_decode zero = RunnerDestination.out
destination_decode (suc n) = RunnerDestination.safe_at (base_decode n)

destination_decode-code : (d : RunnerDestination) → destination_decode (destination_code d) ≡ d
unfolding destination_decode base_decode
destination_decode-code (RunnerDestination.safe_at Base.first) = refl
destination_decode-code (RunnerDestination.safe_at Base.second) = refl
destination_decode-code (RunnerDestination.safe_at Base.third) = refl
destination_decode-code RunnerDestination.home_plate = refl
destination_decode-code RunnerDestination.out = refl

pub destination_beq_iff :
    (a b : RunnerDestination) → (nat_beq (destination_code a) (destination_code b) ≡ true) ↔ (a ≡ b)
destination_beq_iff = by_code_iff destination_code destination_decode destination_decode-code

instance abbrev pub destination_eq : Eq RunnerDestination
destination_eq = record {
  beq = λ a b. nat_beq (destination_code a) (destination_code b);
  beq_iff = destination_beq_iff;
}
