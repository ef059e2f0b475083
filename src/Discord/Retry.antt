-- ===== src/Discord/Retry.antt =====
-- `discordUpdateRetryAt`, src/domain/discord-update-worker.ts.
use baseballstattrack.Common.{
  ℕ, zero, suc, ◌+◌, ◌*◌, ◌≤◌, ◌<◌, ◌≡◌, ◌⊎◌, inl, inr, Option, none, some, List, [], ◌∷◌,
  if◌then◌else◌, get_or, leb, arith, Bool-cases,
}

abbrev pub max_attempts : ℕ
max_attempts = 8

-- `DISCORD_UPDATE_RETRY_DELAYS_SECONDS`
abbrev pub retry_delays_seconds : List ℕ
retry_delays_seconds = 0 ∷ 30 ∷ 120 ∷ 600 ∷ 3600 ∷ 21600 ∷ 86400 ∷ 86400 ∷ []

-- `delays[attempt]`
abbrev pub element_at : List ℕ → ℕ → Option ℕ
element_at [] n = none
element_at (x ∷ xs) zero = some x
element_at (x ∷ xs) (suc n) = element_at xs n

abbrev pub configured_delay : ℕ → ℕ
configured_delay attempt = get_or (element_at retry_delays_seconds attempt) 86400

abbrev pub larger : ℕ → ℕ → ℕ
larger m n = if leb m n then n else m

abbrev pub smaller : ℕ → ℕ → ℕ
smaller m n = if leb m n then m else n

abbrev pub retry_seconds : ℕ → Option ℕ → ℕ
retry_seconds attempt none = configured_delay attempt
retry_seconds attempt (some retry_after) =
    smaller 86400 (larger (configured_delay attempt) retry_after)

-- The attempts are numbered, and times are in milliseconds.
unfoldable pub discord_update_retry_at : ℕ → ℕ → Option ℕ → Option ℕ
discord_update_retry_at attempt completed_at retry_after =
    if leb max_attempts attempt
    then none
    else some (completed_at + retry_seconds attempt retry_after * 1000)

configured_delay-le : (attempt : ℕ) → configured_delay attempt ≤ 86400
configured_delay-le zero = omega arith
configured_delay-le (suc zero) = omega arith
configured_delay-le (suc (suc zero)) = omega arith
configured_delay-le (suc (suc (suc zero))) = omega arith
configured_delay-le (suc (suc (suc (suc zero)))) = omega arith
configured_delay-le (suc (suc (suc (suc (suc zero))))) = omega arith
configured_delay-le (suc (suc (suc (suc (suc (suc zero)))))) = omega arith
configured_delay-le (suc (suc (suc (suc (suc (suc (suc zero))))))) = omega arith
configured_delay-le (suc (suc (suc (suc (suc (suc (suc (suc n)))))))) = omega arith

retry_seconds-bounds :
    (attempt : ℕ) (after : Option ℕ)
    → (configured_delay attempt ≤ retry_seconds attempt after)
      × (retry_seconds attempt after ≤ 86400)
      × (smaller 86400 (get_or after 0) ≤ retry_seconds attempt after)
retry_seconds-bounds attempt none =
    let le = configured_delay-le attempt in (omega arith, le, ground (arith))
retry_seconds-bounds attempt (some after) =
    let le = configured_delay-le attempt in
    (
      ground (arith, configured_delay attempt),
      ground (arith),
      ground (arith, configured_delay attempt),
    )

-- A failed attempt before the last is retried: not before it was completed, nor before the delay that
-- is configured for it, at most a day later, and not before the time that the provider asked for, up to
-- a day. The last attempt is not retried.
pub discord_update_retry_at-bounds :
    (attempt completed_at : ℕ) (retry_after : Option ℕ)
    → (max_attempts ≤ attempt) × (discord_update_retry_at attempt completed_at retry_after ≡ none)
      ⊎ (at : ℕ) × (discord_update_retry_at attempt completed_at retry_after ≡ some at)
        × (attempt < max_attempts)
        × (completed_at + configured_delay attempt * 1000 ≤ at)
        × (at ≤ completed_at + 86400000)
        × (completed_at + smaller 86400 (get_or retry_after 0) * 1000 ≤ at)
unfolding discord_update_retry_at
discord_update_retry_at-bounds attempt completed_at retry_after =
    let (least, most, asked) = retry_seconds-bounds attempt retry_after in
    elim (Bool-cases (leb max_attempts attempt)) [
      | inl spent ↦ inl (ground arith, ground arith)
      | inr left ↦ inr (
        completed_at + retry_seconds attempt retry_after * 1000,
        ground arith,
        ground arith,
        omega arith,
        omega arith,
        omega arith,
      )
    ]
