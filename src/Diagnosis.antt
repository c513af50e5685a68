-- ===== src/Diagnosis.antt =====
-- server/internal/web/diagnosis.go: the card that ranks the causes of an anomaly.
pub mod Fired
pub mod Card
mod Tests
use maping.Base.{
  ℕ, suc, Bool, true, false, ◌&&◌, ◌||◌, not, List, [], ◌∷◌, ◌++◌, map, keep, ltb, leb, ◌==◌,
  if◌then◌else◌,
}
use maping.Base.Bytes.{Bytes, codes, is_empty}
use maping.Base.Sort.{sort_by}
use maping.Float.{Float}
use maping.Base.Text.{join}
use maping.Format.{Strconv, long_dash, fmt_pct_d, fmt_ms_full, fmt_ratio}
use maping.Memory.{Trend}
use maping.Panels.{dominant_version}
use maping.Panels.Fleet.{to_downstream_view}
use maping.Panels.Rows.{InstanceRow}
use maping.Stats.{VersionStat}
use maping.Verdict.{Level, DotClass, no_dot, dot_muted, Detail}
use maping.Causes.{Cause, DiagnosisParams, score}
use maping.Causes.Fleet.{aggregate_fleet}
use maping.Causes.Resource.{cause_memory, cause_cpu, cause_goroutine_leak, is_leak, is_burst_level}
use maping.Causes.Blocked.{cause_congestion, cause_overload, cause_downstream}
use maping.Causes.Localized.{cause_instance_localized, cause_release}

pub record TopCauseView : Type 0 where
  pub name : Bytes
  pub dot_class : DotClass
  pub confidence : Bytes
  pub summary : Bytes
  pub evidence : List Bytes
  pub falsifier : Bytes
  pub chart : Bytes

pub record CauseSummary : Type 0 where
  pub name : Bytes
  pub dot_class : DotClass
  pub confidence : Bytes

pub record DiagnosisView : Type 0 where
  pub show : Bool
  pub top_cause : TopCauseView
  pub why : Bytes
  pub scope : Bytes
  pub others : List CauseSummary

unfoldable pub no_cause : TopCauseView
no_cause = record {
  name = [];
  dot_class = no_dot;
  confidence = [];
  summary = [];
  evidence = [];
  falsifier = [];
  chart = [];
}

-- The view of an endpoint that is not anomalous.
unfoldable pub hidden : DiagnosisView
hidden = record { show = false; top_cause = no_cause; why = []; scope = []; others = [] }

unfoldable pub unattributed : TopCauseView
unattributed = record {
  name = codes "Unattributed";
  dot_class = dot_muted;
  confidence = codes "Low (0 signals)";
  summary = codes "None of the tracked signals stand out enough to point at a specific cause yet.";
  evidence =
      (codes "No resource signal explains this degradation "
        ++ long_dash
        ++ codes " check the timeline and exemplars.")
      ∷ [];
  falsifier =
      codes "A cause would attach if a resource, downstream, version, or instance signal crossed"
      ++ codes " its threshold next window.";
  chart = [];
}

unfoldable pub is_alarm : Level → Bool
is_alarm Level.degraded = true
is_alarm Level.critical = true
is_alarm Level.unknown = false
is_alarm Level.healthy = false

unfoldable pub anomalous : Level → Trend → Bool
anomalous level trend = is_alarm level || is_leak trend || is_burst_level trend

unfoldable pub tier : ℕ → Bytes
tier signals =
    if leb 3 signals then codes "High" else if signals == 2 then codes "Medium" else codes "Low"

unfoldable pub tally : Bool → ℕ → ℕ
tally counts n = if counts then suc n else n

module _ {F : Type 0} where
  unfoldable pub busy_instances : ℕ → List (InstanceRow F) → ℕ
  busy_instances n [] = n
  busy_instances n (r ∷ rs) = busy_instances (tally (ltb 0 r.count) n) rs

  unfoldable pub outliers : ℕ → List (InstanceRow F) → ℕ
  outliers n [] = n
  outliers n (r ∷ rs) = outliers (tally r.is_outlier n) rs

module _ (fl : Float) (go : Strconv fl.F) where
  open fl use {F, lit, lt, le, div}
  open go use {format_uint}

  unfoldable pub confidence_label : ℕ → ℕ → Bytes
  confidence_label signals max_signals =
      tier signals
      ++ codes " ("
      ++ format_uint signals
      ++ codes "/"
      ++ format_uint max_signals
      ++ codes " signals)"

  unfoldable pub diagnosis_why : Detail F → F → Bool → Bytes
  diagnosis_why d p95_base ok =
      if ok && lt (lit 0 1) p95_base && le (lit 2 1) (div d.p95 p95_base)
      then codes "Latency p95 "
        ++ fmt_ratio fl go (div d.p95 p95_base)
        ++ codes " the trailing baseline."
      else if lt (lit 0 1) d.error_rate
      then codes "Error rate " ++ fmt_pct_d fl go d.error_rate ++ codes "."
      else if lt (lit 0 1) d.p50
      then codes "Tail spread p95/p50 " ++ fmt_ratio fl go (div d.p95 d.p50) ++ codes "."
      else codes "p95 " ++ fmt_ms_full fl go d.p95 ++ codes "."

  unfoldable pub instances_clause : ℕ → ℕ → List Bytes
  instances_clause total outlying =
      if total == 0
      then []
      else if ltb 0 outlying
      then (format_uint outlying ++ codes " of " ++ format_uint total ++ codes " instances") ∷ []
      else (format_uint total ++ codes " instances") ∷ []

  unfoldable pub version_clause : Bytes → List Bytes
  version_clause v = if is_empty v then [] else v ∷ []

  -- The separator is a middle dot in UTF-8 between blanks.
  unfoldable pub diagnosis_scope : Detail F → List (InstanceRow F) → List (VersionStat F) → Bytes
  diagnosis_scope d instances versions =
      join
        (instances_clause (busy_instances 0 instances) (outliers 0 instances)
          ++ version_clause (dominant_version versions)
          ++ (if lt (lit 0 1) d.error_rate then codes "success and error" else codes "success only")
            ∷ [])
        (32 ∷ 194 ∷ 183 ∷ 32 ∷ [])

  unfoldable pub candidates : DiagnosisParams F → List (Cause F)
  candidates p =
      let win = aggregate_fleet fl p.resources p.win_seconds in
      let base = aggregate_fleet fl p.resource_baseline p.baseline_seconds in
      let ds = to_downstream_view fl go p.downstream in
      cause_memory fl go p win base
      ∷ cause_cpu fl go win
      ∷ cause_congestion fl go win base ds
      ∷ cause_overload fl go p win base
      ∷ cause_goroutine_leak fl go win base
      ∷ cause_downstream fl go ds
      ∷ cause_instance_localized fl go p.instances
      ∷ cause_release fl go p.versions
      ∷ []

  unfoldable pub higher : Cause F → Cause F → Bool
  higher a b = lt (score fl b) (score fl a)

  unfoldable pub fired_causes : DiagnosisParams F → List (Cause F)
  fired_causes p = keep (λ (c : Cause F). c.fired) (candidates p)

  unfoldable pub ranked : DiagnosisParams F → List (Cause F)
  ranked p = sort_by higher (fired_causes p)

  unfoldable pub top_of : Cause F → TopCauseView
  top_of c = record {
    name = c.name;
    dot_class = c.dot_class;
    confidence = confidence_label c.signals c.max_signals;
    summary = c.summary;
    evidence = c.evidence;
    falsifier = c.falsifier;
    chart = c.chart;
  }

  unfoldable pub summary_of : Cause F → CauseSummary
  summary_of c = record {
    name = c.name;
    dot_class = c.dot_class;
    confidence = confidence_label c.signals c.max_signals;
  }

  -- The card of an anomaly from its ranked causes.
  unfoldable pub card : Bytes → Bytes → List (Cause F) → DiagnosisView
  card why scope [] = record {
    show = true;
    top_cause = unattributed;
    why = why;
    scope = scope;
    others = [];
  }
  card why scope (c ∷ cs) = record {
    show = true;
    top_cause = top_of c;
    why = why;
    scope = scope;
    others = map summary_of cs;
  }

  unfoldable pub compute_diagnosis : DiagnosisParams F → DiagnosisView
  compute_diagnosis p =
      if not (anomalous p.verdict.level p.memory.level)
      then hidden
      else card (diagnosis_why p.detail p.p95_baseline p.p95_baseline_ok)
          (diagnosis_scope p.detail p.instances p.versions) (ranked p)
