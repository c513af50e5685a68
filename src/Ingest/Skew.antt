-- ===== src/Ingest/Skew.antt =====
-- The timestamp policy.
use maping.Base.{suc, ◌^◌, ◌≡◌, Bool, ◌||◌, none, some, leb, if◌then◌else◌, arith, not}
use maping.Base.Int.{ℤ, pos, negsuc, ltb_ℤ, ◌-ℤ◌}
use maping.Ingest.{skew_tolerance, saturate, negate, from_milli, apply_timestamp_policy}

-- The test on the true distance of the window's end behind the clock; a negative one is ahead.
abbrev pub passes : ℤ → Bool
passes (pos n) = leb n skew_tolerance
passes (negsuc n) = leb (suc n) skew_tolerance || leb (2 ^ 63) (suc n)

abbrev pub tested : ℤ → Bool
tested drift = not (
    ltb_ℤ (pos skew_tolerance)
      (if ltb_ℤ (saturate drift) (pos 0) then negate (saturate drift) else saturate drift))

tested-passes : (d : ℤ) → tested d ≡ passes d
unfolding saturate negate skew_tolerance
tested-passes (pos n) = ground arith
tested-passes (negsuc n) = ground arith

-- A summary is accepted exactly if its window's end lies at most ten minutes from the server's
-- clock, on either side, or at least 2^63 nanoseconds, some 292 years, ahead of it: there the
-- distance stops at the least Duration, whose negation is itself, so the test finds it small. What
-- is accepted keeps its times.
pub apply_timestamp_policy_lem :
    (start end now : ℤ)
    → apply_timestamp_policy start end now
      ≡ (if passes (now -ℤ from_milli end) then some (from_milli start, from_milli end) else none)
unfolding apply_timestamp_policy
apply_timestamp_policy_lem start end now = ground (arith, tested-passes (now -ℤ from_milli end))
