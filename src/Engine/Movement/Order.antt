-- ===== src/Engine/Movement/Order.antt =====
-- No runner passes another.
use baseballstattrack.Common.{
  ℕ, suc, ◌<◌, ◌≡◌, refl, Bool, true, false, ◌&&◌, Option, none, some, List, [], ◌∷◌, if◌then◌else◌,
  any, ◌==◌, nat_eq, option_beq, Dict, lookup, arith,
}
use baseballstattrack.Events.Enums.{Base, first, second, third, RunnerOrigin}
use baseballstattrack.Events.Equality.{
  side_eq, position_eq, base_eq, origin_eq, cause_eq, outcome_eq, credit_eq, play_type_eq,
  policy_eq, status_eq, base_code, destination_eq,
}
use baseballstattrack.Events.State.{Bases, at_base, GameState}
use baseballstattrack.Events.Bodies.{RunnerMovement}
use baseballstattrack.Common.{lookup-insert}
use baseballstattrack.Engine.Movement.{
  passes, base_ranks, rank_base, rank_batter, rank_batters, runner_passed,
}
use baseballstattrack.Engine.Movement.Integrity.{RunnersSound}

-- A test that no entry passes fails at the entry that `lookup` finds.
any-lookup :
    (p : ℕ × ℕ → Bool) (d : Dict ℕ ℕ) (k v : ℕ)
    → any p d ≡ false
    → lookup k d ≡ some v
    → p (k, v) ≡ false
any-lookup p [] k v h e = cc
any-lookup p ((j, w) ∷ d) k v h e = ground (arith, any-lookup p d k v)

lookup-rank_base :
    (b : Base) (o : Option ℕ) (ranks : Dict ℕ ℕ) (r : ℕ)
    → lookup r (rank_base b o ranks)
      ≡ (if option_beq o (some r) then some (suc (base_code b)) else lookup r ranks)
lookup-rank_base b none ranks r = refl
lookup-rank_base b (some k) ranks r = lookup-insert r k (suc (base_code b)) ranks

-- The ranks by bases, the last base that a runner holds first.
ranks_lem :
    (bases : Bases) (r : ℕ)
    → lookup r (base_ranks bases) ≡ (
        if option_beq bases.on_third (some r)
        then some 3
        else if option_beq bases.on_second (some r)
        then some 2
        else if option_beq bases.on_first (some r)
        then some 1
        else none)
ranks_lem bases r = simp lookup-rank_base

-- With runners apart, `base_ranks` has the rank of the base that a runner holds.
pub lookup-base_ranks :
    (bases : Bases)
    → ((b c : Base) (r : ℕ) → at_base bases b ≡ some r → at_base bases c ≡ some r → b ≡ c)
    → (b : Base) (r : ℕ) → at_base bases b ≡ some r
    → lookup r (base_ranks bases) ≡ some (suc (base_code b))
lookup-base_ranks bases apart first r h =
    ground (arith, ranks_lem bases r, apart first second r h, apart first third r h)
lookup-base_ranks bases apart second r h =
    ground (arith, ranks_lem bases r, apart second first r h, apart second third r h)
lookup-base_ranks bases apart third r h =
    ground (arith, ranks_lem bases r, apart third first r h, apart third second r h)

-- The movement that brings a runner up as the batter.
abbrev pub is_batter : ℕ → List RunnerMovement → Bool
is_batter r = any (λ m. m.from == RunnerOrigin.batter && m.runner_id == r)

lookup-rank_batter :
    (o : RunnerOrigin) (k : ℕ) (ranks : Dict ℕ ℕ) (r : ℕ)
    → lookup r (rank_batter o k ranks)
      ≡ (if o == RunnerOrigin.batter && k == r then some 0 else lookup r ranks)
lookup-rank_batter RunnerOrigin.batter k ranks r = lookup-insert r k 0 ranks
lookup-rank_batter (RunnerOrigin.on b) k ranks r = ground arith

lookup-rank_batters :
    (ms : List RunnerMovement) (ranks : Dict ℕ ℕ) (r : ℕ)
    → lookup r (rank_batters ms ranks) ≡ (if is_batter r ms then some 0 else lookup r ranks)
lookup-rank_batters [] ranks r = refl
lookup-rank_batters (m ∷ ms) ranks r = ground (
  arith,
  lookup-rank_batters ms (rank_batter m.from m.runner_id ranks) r,
  lookup-rank_batter m.from m.runner_id ranks r,
)

-- How far a runner was: 0 at the plate.
pub data Stood (state : GameState) (ms : List RunnerMovement) (r : ℕ) : ℕ → Type 0 where
  at_plate : is_batter r ms ≡ true → Stood state ms r 0
  at_bag :
      (b : Base)
      → is_batter r ms ≡ false
      → at_base state.bases b ≡ some r
      → Stood state ms r (suc (base_code b))

Stood-rank :
    (state : GameState) (ms : List RunnerMovement)
    → RunnersSound state
    → (r : ℕ) {i : ℕ} → Stood state ms r i
    → lookup r (rank_batters ms (base_ranks state.bases)) ≡ some i
Stood-rank state ms sound r (at_plate h) =
    ground (arith, lookup-rank_batters ms (base_ranks state.bases) r)
Stood-rank state ms sound r (at_bag b h e) = ground (
  arith,
  lookup-rank_batters ms (base_ranks state.bases) r,
  lookup-base_ranks state.bases sound.apart b r e,
)

pub in_order :
    (state : GameState) (ms : List RunnerMovement) (after : Bases)
    → RunnersSound state
    → ((b c : Base) (r : ℕ) → at_base after b ≡ some r → at_base after c ≡ some r → b ≡ c)
    → runner_passed state.bases ms after ≡ false
    → (r s : ℕ) {i j : ℕ} (b c : Base) → Stood state ms r i
    → Stood state ms s j
    → i < j
    → at_base after b ≡ some r
    → at_base after c ≡ some s
    → base_code b < base_code c
unfolding runner_passed
in_order state ms after sound apart kept r s {i} {j} b c hr hs lt hb hc =
    let final = base_ranks after in
    let original = rank_batters ms (base_ranks state.bases) in
    let behind =
      any-lookup (λ t. any (passes final t) original) original r i kept
        (Stood-rank state ms sound r hr) in
    ground (
      arith,
      any-lookup (passes final (r, i)) original s j behind (Stood-rank state ms sound s hs),
      lookup-base_ranks after apart b r hb,
      lookup-base_ranks after apart c s hc,
    )
