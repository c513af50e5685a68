-- ===== src/Verdict.antt =====
-- server/internal/web/verdict.go: the health verdict of an endpoint. Percentiles are in seconds.
mod Measures
pub mod Grade
pub mod Reasons
mod Tests
use maping.Base.{
  ℕ, zero, suc, ◌-◌, ◌/◌, ◌%◌, Bool, true, false, not, ◌&&◌, ◌||◌, Option, none, some, List, [],
  ◌∷◌, ◌++◌, map, length, get_or, ltb, leb, ◌==◌, if◌then◌else◌,
}
use maping.Base.Bytes.{Bytes, codes}
use maping.Base.Int.{ℤ, pos, ltb_ℤ}
use maping.Base.Sort.{sort_by}
use maping.Float.{Float}
use maping.Base.Text.{join}
use maping.Format.{Strconv, long_dash, fmt_pct_d, fmt_ms_full, fmt_ratio}
pub use maping.Verdict.Measures.{
  Severity, sev_none, sev_degraded, sev_critical, StatusClassView, StatusCodeView, Detail,
  TimePoint,
}
unfoldable pub use maping.Verdict.Measures.{
  rank_of, max_from, max_severity, is_none, min_baseline_buckets, min_verdict_samples, floor_100ms,
  floor_200ms, floor_800ms, error_severity, spread_severity, latency_severity, float_less, median,
  trafficked, baseline_median_p95, error_count, enough_samples, spread_of, usable_baseline,
  lat_ratio, err_sev, spread_sev, lat_sev,
}

pub data Level : Type 0 where
  unknown : Level
  healthy : Level
  degraded : Level
  critical : Level

-- `no_dot` is the empty class of a view that shows nothing.
pub data DotClass : Type 0 where
  no_dot : DotClass
  dot_muted : DotClass
  dot_ok : DotClass
  dot_warn : DotClass
  dot_err : DotClass

pub record VerdictView : Type 0 where
  pub level : Level
  pub dot_class : DotClass
  pub headline : Level
  pub qualifier : Bytes
  pub sentence : Bytes
  pub opened : Bool

pub record Reason : Type 0 where
  pub sev : Severity
  pub rank : ℕ
  pub text : Bytes

-- The order of sort.SliceStable in problemSentence.
unfoldable pub stronger : Reason → Reason → Bool
stronger a b =
    if rank_of a.sev == rank_of b.sev
    then ltb a.rank b.rank
    else ltb (rank_of b.sev) (rank_of a.sev)

-- A reason where the component fired, and the reasons that follow.
unfoldable pub reason_if : Severity → ℕ → Bytes → List Reason → List Reason
reason_if sev rank text rest =
    if is_none sev then rest else record { sev = sev; rank = rank; text = text } ∷ rest

module _ (fl : Float) where
  open fl use {F, lit, is_nan, lt, le, add, mul, div, round, of_ℕ, to_int}

  unfoldable pub low_traffic_rate : F
  low_traffic_rate = lit 1 20

  module _ (go : Strconv F) where
    unfoldable pub healthy_sentence : Detail F → F → Bytes
    healthy_sentence d spread =
        let word =
          if lt spread (lit 13 10)
          then codes "stable"
          else if lt spread (lit 5 2)
          then codes "steady"
          else codes "wide tail" in
        fmt_pct_d fl go d.error_rate
        ++ codes " errors, p95 "
        ++ fmt_ms_full fl go d.p95
        ++ codes ", "
        ++ word
        ++ codes " latency."

    unfoldable pub reasons : Detail F → F → F → Severity → Severity → Severity → List Reason
    reasons d spread ratio err spr lat =
        reason_if lat 0
          (codes "p95 "
            ++ fmt_ms_full fl go d.p95
            ++ codes " ("
            ++ fmt_ratio fl go ratio
            ++ codes " baseline)")
          (reason_if err 1 (fmt_pct_d fl go d.error_rate ++ codes " errors") (
            reason_if spr 2
              (codes "spread "
                ++ fmt_ratio fl go spread
                ++ codes " (p95 "
                ++ fmt_ms_full fl go d.p95
                ++ codes ")")
              []))

    unfoldable pub problem_sentence : Detail F → F → F → Severity → Severity → Severity → Bytes
    problem_sentence d spread ratio err spr lat =
        join (map (λ (r : Reason). r.text) (sort_by stronger (reasons d spread ratio err spr lat)))
          (codes "; ")
        ++ codes "."

    unfoldable pub qualifier : Detail F → F → Bytes
    qualifier d win_seconds =
        if lt (lit 0 1) win_seconds && lt (div (of_ℕ d.count) win_seconds) low_traffic_rate
        then codes "low traffic"
        else []

    -- The verdict without a firing component.
    unfoldable pub calm_verdict : Detail F → VerdictView
    calm_verdict d =
        if not (enough_samples fl d)
        then record {
          level = unknown;
          dot_class = dot_muted;
          headline = unknown;
          qualifier = [];
          sentence =
              codes "Insufficient traffic (n="
              ++ go.format_uint d.count
              ++ codes ") "
              ++ long_dash
              ++ codes " no verdict this window.";
          opened = false;
        }
        else record {
          level = healthy;
          dot_class = dot_ok;
          headline = healthy;
          qualifier = [];
          sentence = healthy_sentence d (spread_of fl d);
          opened = false;
        }

    unfoldable pub alarm : Level → DotClass → Bytes → Bytes → VerdictView
    alarm name dot qualifier sentence = record {
      level = name;
      dot_class = dot;
      headline = name;
      qualifier = qualifier;
      sentence = sentence;
      opened = true;
    }

    unfoldable pub compute_verdict : Detail F → List (TimePoint F) → F → VerdictView
    compute_verdict d baseline win_seconds =
        let sentence =
          problem_sentence d (spread_of fl d) (lat_ratio fl d baseline) (err_sev fl d)
            (spread_sev fl d) (lat_sev fl d baseline) in
        elim (max_severity (err_sev fl d ∷ spread_sev fl d ∷ lat_sev fl d baseline ∷ [])) [
          | sev_none ↦ calm_verdict d
          | sev_degraded ↦ alarm degraded dot_warn (qualifier d win_seconds) sentence
          | sev_critical ↦ alarm critical dot_err (qualifier d win_seconds) sentence
        ]
