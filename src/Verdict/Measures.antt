-- ===== src/Verdict/Measures.antt =====
-- server/internal/web/verdict.go: the severities of an endpoint's errors, of its spread and of its
-- latency against the baseline. Percentiles are in seconds.
use maping.Base.{
  ℕ, ◌-◌, ◌/◌, ◌%◌, Bool, not, ◌&&◌, ◌||◌, Option, none, some, List, [], ◌∷◌, length, get_or, ltb,
  leb, ◌==◌, if◌then◌else◌,
}
use maping.Base.Bytes.{Bytes}
use maping.Base.Int.{ℤ, pos, ltb_ℤ}
use maping.Base.Sort.{sort_by}
use maping.Float.{Float}

pub data Severity : Type 0 where
  sev_none : Severity
  sev_degraded : Severity
  sev_critical : Severity

-- The number behind a severity: it counts up from sevNone.
unfoldable pub rank_of : Severity → ℕ
rank_of sev_none = 0
rank_of sev_degraded = 1
rank_of sev_critical = 2

unfoldable pub max_from : Severity → List Severity → Severity
max_from m [] = m
max_from m (s ∷ ss) = max_from (if ltb (rank_of m) (rank_of s) then s else m) ss

unfoldable pub max_severity : List Severity → Severity
max_severity sevs = max_from sev_none sevs

unfoldable pub is_none : Severity → Bool
is_none s = rank_of s == 0

-- server/internal/web/view_detail.go: the headline of an endpoint's page
pub record StatusClassView : Type 0 where
  pub class : Bytes
  pub count : ℕ
  pub is_error : Bool

pub record StatusCodeView : Type 0 where
  pub code : ℕ
  pub count : ℕ

pub record Detail (F : Type 0) : Type 0 where
  pub count : ℕ
  pub error_rate : F
  pub error_high : Bool
  pub p50 : F
  pub p95 : F
  pub p99 : F
  pub classes : List StatusClassView
  pub codes : List StatusCodeView

-- The fields of storage.TimePoint that the verdict reads.
pub record TimePoint (F : Type 0) : Type 0 where
  pub count : ℕ
  pub p95 : F

unfoldable pub min_baseline_buckets : ℕ
min_baseline_buckets = 30

unfoldable pub min_verdict_samples : ℕ
min_verdict_samples = 20

module _ (fl : Float) where
  open fl use {F, lit, is_nan, lt, le, add, mul, div, round, of_ℕ, to_int}

  unfoldable pub floor_100ms : F
  floor_100ms = lit 1 10

  unfoldable pub floor_200ms : F
  floor_200ms = lit 1 5

  unfoldable pub floor_800ms : F
  floor_800ms = lit 4 5

  unfoldable pub error_severity : ℤ → F → Severity
  error_severity errors rate =
      if not (ltb_ℤ errors (pos 10)) && le (lit 1 20) rate
      then sev_critical
      else if not (ltb_ℤ errors (pos 5)) && le (lit 1 100) rate
      then sev_degraded
      else sev_none

  unfoldable pub spread_severity : F → F → ℕ → Severity
  spread_severity spread p95 count =
      if le (lit 6 1) spread && le floor_200ms p95 && leb 50 count
      then sev_critical
      else if le (lit 5 2) spread && le floor_100ms p95 && leb 50 count
      then sev_degraded
      else sev_none

  unfoldable pub latency_severity : F → F → Severity
  latency_severity p95 ratio =
      if le floor_800ms p95 && le (lit 4 1) ratio
      then sev_critical
      else if le floor_200ms p95 && le (lit 2 1) ratio
      then sev_degraded
      else sev_none

  -- sort.Float64s, which orders a NaN before the numbers.
  unfoldable pub float_less : F → F → Bool
  float_less a b = lt a b || is_nan a && not (is_nan b)

  unfoldable pub median : List F → F
  median sorted =
      let n = length sorted in
      if n % 2 == 1
      then get_or sorted (n / 2) (lit 0 1)
      else div (add (get_or sorted (n / 2 - 1) (lit 0 1)) (get_or sorted (n / 2) (lit 0 1)))
          (lit 2 1)

  unfoldable pub trafficked : List (TimePoint F) → List F
  trafficked [] = []
  trafficked (b ∷ bs) = let rest = trafficked bs in if ltb 0 b.count then b.p95 ∷ rest else rest

  unfoldable pub baseline_median_p95 : List (TimePoint F) → Option F
  baseline_median_p95 baseline =
      let p95s = trafficked baseline in
      if ltb (length p95s) min_baseline_buckets
      then none
      else some (median (sort_by float_less p95s))

  -- The error count and the severities, with the spread and the ratio that the sentences name.
  unfoldable pub error_count : Detail F → ℤ
  error_count d = to_int (round (mul d.error_rate (of_ℕ d.count)))

  unfoldable pub enough_samples : Detail F → Bool
  enough_samples d = leb min_verdict_samples d.count

  unfoldable pub spread_of : Detail F → F
  spread_of d = if enough_samples d && lt (lit 0 1) d.p50 then div d.p95 d.p50 else lit 0 1

  -- The baseline, where the rule on latency is applied.
  unfoldable pub usable_baseline : Detail F → List (TimePoint F) → Option F
  usable_baseline d baseline =
      if enough_samples d
      then elim (baseline_median_p95 baseline) [
        | none ↦ none
        | some b ↦ if lt (lit 0 1) b then some b else none
      ]
      else none

  unfoldable pub lat_ratio : Detail F → List (TimePoint F) → F
  lat_ratio d baseline = elim (usable_baseline d baseline) [ none ↦ lit 0 1 | some b ↦ div d.p95 b ]

  unfoldable pub err_sev : Detail F → Severity
  err_sev d = error_severity (error_count d) d.error_rate

  unfoldable pub spread_sev : Detail F → Severity
  spread_sev d = if enough_samples d then spread_severity (spread_of d) d.p95 d.count else sev_none

  unfoldable pub lat_sev : Detail F → List (TimePoint F) → Severity
  lat_sev d baseline = elim (usable_baseline d baseline) [
    | none ↦ sev_none
    | some b ↦ latency_severity d.p95 (lat_ratio d baseline)
  ]
