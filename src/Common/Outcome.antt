-- ===== src/Common/Outcome.antt =====
-- A computation that may throw: src/domain/events/game-events.ts, `GameEventError`.
use mathlib.Core.Path.{◌≡◌, refl}
use mathlib.Core.Logic.{◌⊎◌, inl, inr}
use mathlib.Core.Bool.{Bool, true, false}
use mathlib.Core.Option.{Option, none, some}

pub data EventErrorCode : Type 0 where
  invalid_payload unsupported_event_type unsupported_schema_version setup_not_ready : EventErrorCode
  invalid_lifecycle_transition invalid_baseball_transition invalid_lineup : EventErrorCode
  invalid_runner_movement invalid_pitcher stale_source_revision sequence_conflict : EventErrorCode
  duplicate_idempotency_key duplicate_accepted_event correction_target_missing : EventErrorCode
  correction_graph_invalid account_mismatch game_mismatch : EventErrorCode
  immutable_history_violation persistence_conflict internal_invariant_failure : EventErrorCode

-- The codes of `StatisticDerivationError`, src/domain/statistics/statistic-values.ts.
pub data StatisticErrorCode : Type 0 where
  unsupported_event_type unsupported_event_version unsupported_ruleset : StatisticErrorCode
  incomplete_replay_state missing_attribution impossible_counter_state : StatisticErrorCode
  reconciliation_failure account_mismatch stale_projection_write : StatisticErrorCode
  invalid_correction_graph internal_invariant_failure : StatisticErrorCode

-- `type_error` is the runtime's own exception where a `!` assertion does not hold.
pub data Failure : Type 0 where
  thrown : EventErrorCode → Failure
  underivable : StatisticErrorCode → Failure
  type_error : Failure

infixl 5 ◌>>◌ ◌>>=◌
pub data Result {ℓ} (V : Type ℓ) : Type ℓ where
  err : Failure → Result V
  ok : V → Result V

-- One computation after another, which the first may throw out.
abbrev pub ◌>>◌ {ℓ κ} : {V : Type ℓ} {W : Type κ} → Result V → Result W → Result W
ok _ >> rest = rest
err failure >> rest = err failure

abbrev pub raise {ℓ} : {V : Type ℓ} → EventErrorCode → Result V
raise c = err (thrown c)

abbrev pub ◌>>=◌ {ℓ κ} : {V : Type ℓ} {W : Type κ} → Result V → (V → Result W) → Result W
err failure >>= rest = err failure
ok v >>= rest = rest v

-- `if (bad) throw new GameEventError(code)`
abbrev pub guard : Bool → EventErrorCode → Result (Unit {0})
guard true c = raise c
guard false c = ok tt

-- `if (bad) throw new StatisticDerivationError(code)`
abbrev pub reject : Bool → StatisticErrorCode → Result (Unit {0})
reject true c = err (underivable c)
reject false c = ok tt

abbrev pub or_raise {ℓ} : {A : Type ℓ} → Option A → EventErrorCode → Result A
or_raise none c = raise c
or_raise (some a) c = ok a

pub Result-cases {ℓ} :
    {A : Type ℓ} (r : Result A) → ((a : A) × (r ≡ ok a)) ⊎ ((e : Failure) × (r ≡ err e))
Result-cases (ok a) = inl (a, refl)
Result-cases (err e) = inr (e, refl)

-- What a chain that returns has computed on the way.
pub >>=-eq-ok {ℓ κ} :
    {V : Type ℓ} {W : Type κ} (first : Result V) (rest : V → Result W) {w : W}
    → (first >>= rest) ≡ ok w
    → (v : V) × (first ≡ ok v) × (rest v ≡ ok w)
>>=-eq-ok (err failure) rest h = cc
>>=-eq-ok (ok v) rest h = (v, refl, h)

pub guard-eq-ok {ℓ} :
    {A : Type ℓ} (bad : Bool) (c : EventErrorCode) (k : Result A) {a : A}
    → (guard bad c >> k) ≡ ok a
    → (bad ≡ false) × (k ≡ ok a)
guard-eq-ok true c k h = cc
guard-eq-ok false c k h = (refl, h)

pub or_raise-eq-ok {ℓ} :
    {A : Type ℓ} (o : Option A) (c : EventErrorCode) {a : A} → or_raise o c ≡ ok a → o ≡ some a
or_raise-eq-ok none c h = cc
or_raise-eq-ok (some a) c h = cc

pub guard_passed : (bad : Bool) (c : EventErrorCode) → guard bad c ≡ ok tt → bad ≡ false
guard_passed true c h = cc
guard_passed false c h = refl

pub >>-eq-ok {ℓ κ} :
    {A : Type ℓ} {B : Type κ} (m : Result A) (k : Result B) {b : B} → (m >> k) ≡ ok b → k ≡ ok b
>>-eq-ok (ok _) k h = h
>>-eq-ok (err e) k h = cc

-- A check that threw nothing, and what follows it.
pub checked-eq-ok {ℓ} :
    {V : Type ℓ} (check : Result (Unit {0})) (rest : Result V) {v : V}
    → (check >> rest) ≡ ok v
    → (check ≡ ok tt) × (rest ≡ ok v)
checked-eq-ok (ok tt) rest h = (refl, h)
checked-eq-ok (err failure) rest h = cc

pub ok-injective {ℓ} : {V : Type ℓ} (v w : V) → ◌≡◌ {A = Result V} (ok v) (ok w) → v ≡ w
ok-injective v w h = cc

pub reject_passed : (bad : Bool) (c : StatisticErrorCode) → reject bad c ≡ ok tt → bad ≡ false
reject_passed true c h = cc
reject_passed false c h = refl
