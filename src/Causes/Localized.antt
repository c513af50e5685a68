-- ===== src/Causes/Localized.antt =====
-- server/internal/web/diagnosis_causes.go: one replica or one version as the cause.
use maping.Base.{
  ℕ, ◌&&◌, not, Bool, true, Option, none, some, List, [], ◌∷◌, ◌++◌, ltb, if◌then◌else◌,
}
use maping.Base.Bytes.{codes, is_empty}
use maping.Base.Sort.{sort_by}
use maping.Base.Text.{same_bytes}
use maping.Float.{Float}
use maping.Format.{Strconv, long_dash, fmt_pct_d, fmt_ms_full, fmt_ratio}
use maping.Panels.Rows.{InstanceRow}
use maping.Stats.{VersionStat}
use maping.Verdict.{median, float_less}
use maping.Causes.{Cause, quiet, signal_if, lines_if}

unfoldable pub min_version_samples : ℕ
min_version_samples = 20

module _ (fl : Float) where
  open fl use {F, lit, lt, le, add, div}

  unfoldable pub release_worse_ratio : F
  release_worse_ratio = lit 3 2

  unfoldable pub row_p95s : List (InstanceRow F) → List F
  row_p95s [] = []
  row_p95s (r ∷ rs) = let rest = row_p95s rs in if ltb 0 r.count then r.p95 ∷ rest else rest

  -- Of two rows of which one may be missing, the later one only if its p95 is higher.
  unfoldable pub is_worse : Option (InstanceRow F) → InstanceRow F → Bool
  is_worse none r = true
  is_worse (some w) r = lt w.p95 r.p95

  unfoldable pub worst_from : Option (InstanceRow F) → List (InstanceRow F) → Option (InstanceRow F)
  worst_from worst [] = worst
  worst_from worst (r ∷ rs) =
      worst_from (if r.is_outlier && is_worse worst r then some r else worst) rs

  unfoldable pub worst_outlier : List (InstanceRow F) → Option (InstanceRow F)
  worst_outlier instances = worst_from none instances

  unfoldable pub qualifies : VersionStat F → Bool
  qualifies v =
      not (is_empty v.version) && not (ltb v.count min_version_samples) && not (le v.p95 (lit 0 1))

  unfoldable pub is_better_version : Option (VersionStat F) → VersionStat F → Bool
  is_better_version none v = true
  is_better_version (some b) v = lt v.p95 b.p95

  unfoldable pub is_worse_version : Option (VersionStat F) → VersionStat F → Bool
  is_worse_version none v = true
  is_worse_version (some w) v = lt w.p95 v.p95

  unfoldable pub best_worst_from :
      Option (VersionStat F)
      → Option (VersionStat F)
      → List (VersionStat F)
      → Option (VersionStat F) × Option (VersionStat F)
  best_worst_from best worst [] = (best, worst)
  best_worst_from best worst (v ∷ vs) =
      if not (qualifies v)
      then best_worst_from best worst vs
      else best_worst_from (if is_better_version best v then some v else best)
          (if is_worse_version worst v then some v else worst) vs

  -- Two different versions, or none.
  unfoldable pub distinct_versions :
      Option (VersionStat F) × Option (VersionStat F) → Option (VersionStat F × VersionStat F)
  distinct_versions (none, worst) = none
  distinct_versions (some b, none) = none
  distinct_versions (some b, some w) = if same_bytes b.version w.version then none else some (b, w)

  unfoldable pub best_worst_version : List (VersionStat F) → Option (VersionStat F × VersionStat F)
  best_worst_version versions = distinct_versions (best_worst_from none none versions)

  module _ (go : Strconv F) where
    unfoldable pub localized : F → InstanceRow F → Cause F → Cause F
    localized fleet_med worst c = record c {
      fired = true;
      summary =
          codes "The slowdown is concentrated on one instance rather than the whole fleet, likely a"
          ++ codes " bad host, a hot shard, or uneven load balancing.";
      signals = 1;
      mag = if lt (lit 0 1) fleet_med then div worst.p95 fleet_med else c.mag;
      evidence =
          (codes "Localized to "
            ++ worst.instance_name
            ++ codes ": p95 "
            ++ fmt_ms_full fl go worst.p95
            ++ codes " vs "
            ++ fmt_ms_full fl go fleet_med
            ++ codes " fleet median.")
          ∷ [];
      falsifier =
          codes "Not localized if the p95 gap closes when the instance drains "
          ++ long_dash
          ++ codes " the outlier was a transient, not a bad host.";
    }

    -- The cause from the percentiles of the replicas with traffic and the worst outlier.
    unfoldable pub localized_by : List F → Option (InstanceRow F) → Cause F
    localized_by [] worst = quiet fl (codes "Instance-localized") 1
    localized_by (p ∷ ps) none = quiet fl (codes "Instance-localized") 1
    localized_by (p ∷ ps) (some worst) =
        localized (median fl (sort_by (float_less fl) (p ∷ ps))) worst
          (quiet fl (codes "Instance-localized") 1)

    unfoldable pub cause_instance_localized : List (InstanceRow F) → Cause F
    cause_instance_localized instances = localized_by (row_p95s instances) (worst_outlier instances)

    unfoldable pub errors_worse : VersionStat F → VersionStat F → Bool
    errors_worse best worst = le (add best.error_rate (lit 1 100)) worst.error_rate

    unfoldable pub regressed : VersionStat F → VersionStat F → Cause F → Cause F
    regressed best worst c =
        let ratio = div worst.p95 best.p95 in
        record c {
          fired = true;
          summary =
              codes "One deployed version is measurably slower than another, consistent with a"
              ++ codes " release regression rather than a resource or dependency issue.";
          signals = signal_if (errors_worse best worst) 1;
          mag = ratio;
          evidence =
              lines_if (errors_worse best worst)
                ((codes "Version "
                    ++ worst.version
                    ++ codes " error rate "
                    ++ fmt_pct_d fl go worst.error_rate
                    ++ codes " vs "
                    ++ best.version
                    ++ codes " "
                    ++ fmt_pct_d fl go best.error_rate
                    ++ codes ".")
                  ∷ [])
                ((codes "Version "
                    ++ worst.version
                    ++ codes " p95 "
                    ++ fmt_ms_full fl go worst.p95
                    ++ codes " vs "
                    ++ best.version
                    ++ codes " p95 "
                    ++ fmt_ms_full fl go best.p95
                    ++ codes " ("
                    ++ fmt_ratio fl go ratio
                    ++ codes ").")
                  ∷ []);
          falsifier =
              codes "Not a regression if both versions converge once traffic rebalances "
              ++ long_dash
              ++ codes " the gap was a warm-up or a skewed sample.";
        }

    unfoldable pub regression_of : Option (VersionStat F × VersionStat F) → Cause F
    regression_of none = quiet fl (codes "Release regression") 2
    regression_of (some (best, worst)) =
        let c = quiet fl (codes "Release regression") 2 in
        if lt (div worst.p95 best.p95) release_worse_ratio then c else regressed best worst c

    unfoldable pub cause_release : List (VersionStat F) → Cause F
    cause_release versions = regression_of (best_worst_version versions)
