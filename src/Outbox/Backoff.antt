-- ===== src/Outbox/Backoff.antt =====
-- The delay before a delivery is tried again.

-- The delays, written out.

use seven_network_manager.Base.{
  ap, arith, clamp, if◌then◌else◌, leb, min, refl, suc, zero, ℕ, ◌-◌, ◌==◌, ◌^◌, ◌∙◌, ◌≡◌, ◌≤◌,
}
use seven_network_manager.Outbox.Marks.{retry_delay_seconds}

abbrev delay_table : ℕ → ℕ
delay_table n =
    if leb n 1
    then 1
    else if n == 2
    then 2
    else if n == 3
    then 4
    else if n == 4
    then 8
    else if n == 5
    then 16
    else if n == 6
    then 32
    else 60

long_delay : (e : ℕ) → 6 ≤ e → clamp e 0 6 ≡ 6
long_delay e h = ground arith

-- The delay before the next try depends on the number of the attempt: one second after the first,
-- twice as long after each further one up to 32 seconds after the sixth, and a minute from then
-- on.
pub retry_delay_seconds_lem : (attempt : ℕ) → retry_delay_seconds attempt ≡ delay_table attempt
unfolding retry_delay_seconds
retry_delay_seconds_lem zero = refl
retry_delay_seconds_lem (suc zero) = refl
retry_delay_seconds_lem (suc (suc zero)) = refl
retry_delay_seconds_lem (suc (suc (suc zero))) = refl
retry_delay_seconds_lem (suc (suc (suc (suc zero)))) = refl
retry_delay_seconds_lem (suc (suc (suc (suc (suc zero))))) = refl
retry_delay_seconds_lem (suc (suc (suc (suc (suc (suc zero)))))) = refl
retry_delay_seconds_lem (suc (suc (suc (suc (suc (suc (suc n))))))) =
    ap (λ e. clamp (2 ^ e) 1 60)
      (long_delay (suc (suc (suc (suc (suc (suc (suc n)))))) - 1) (omega arith))
    ∙ late n
  where
    late : (n : ℕ) → 60 ≡ delay_table (suc (suc (suc (suc (suc (suc (suc n)))))))
    late n = ground arith

large_power : (n : ℕ) → 64 ≤ 2 ^ suc (suc (suc (suc (suc (suc n)))))
large_power zero = omega arith
large_power (suc n) = omega (arith, large_power n)

capped_power : (attempt : ℕ) → delay_table attempt ≡ min (2 ^ (attempt - 1)) 60
capped_power zero = refl
capped_power (suc zero) = refl
capped_power (suc (suc zero)) = refl
capped_power (suc (suc (suc zero))) = refl
capped_power (suc (suc (suc (suc zero)))) = refl
capped_power (suc (suc (suc (suc (suc zero))))) = refl
capped_power (suc (suc (suc (suc (suc (suc zero)))))) = refl
capped_power (suc (suc (suc (suc (suc (suc (suc n))))))) = ground (arith, large_power n)

-- The delay of an attempt is two to the power of the attempts before it, in seconds, but a minute
-- at most; for the attempt 0 it is a second. So a later attempt never waits less than an earlier
-- one. Every delay is of 1 to 60 seconds, which the bounds of `mark_failed` leave unchanged.
pub retry_delay-doubles :
    (attempt later : ℕ)
    → attempt ≤ later
    → (retry_delay_seconds attempt ≡ min (2 ^ (attempt - 1)) 60)
      × (1 ≤ retry_delay_seconds attempt)
      × (retry_delay_seconds attempt ≤ retry_delay_seconds later)
      × (retry_delay_seconds later ≤ 60)
      × (clamp (retry_delay_seconds attempt) 1 3600 ≡ retry_delay_seconds attempt)
retry_delay-doubles n m h =
    rw (retry_delay_seconds_lem n, retry_delay_seconds_lem m)
      (capped_power n, ground arith, ground arith, ground arith, ground arith)
