-- ===== src/Causes.antt =====
-- server/internal/web/diagnosis.go and diagnosis_causes.go: the candidate causes of an anomaly.
pub mod Fleet
pub mod Resource
pub mod Blocked
pub mod Localized
use maping.Base.{ℕ, suc, Bool, false, ◌&&◌, List, [], ◌∷◌, ◌++◌, if◌then◌else◌}
use maping.Base.Bytes.{Bytes}
use maping.Float.{Float}
use maping.Memory.{MemoryVerdict}
use maping.Panels.Rows.{InstanceRow}
use maping.Stats.{InstanceResourceStat, VersionStat, DownstreamStat, NoStatusReasonStat}
use maping.Verdict.{Detail, VerdictView, DotClass, dot_warn}

pub record Cause (F : Type 0) : Type 0 where
  pub name : Bytes
  pub dot_class : DotClass
  pub fired : Bool
  pub signals : ℕ
  pub max_signals : ℕ
  pub mag : F
  pub summary : Bytes
  pub evidence : List Bytes
  pub falsifier : Bytes
  pub chart : Bytes

pub record DiagnosisParams (F : Type 0) : Type 0 where
  pub detail : Detail F
  pub verdict : VerdictView
  pub resources : List (InstanceResourceStat F)
  pub resource_baseline : List (InstanceResourceStat F)
  pub memory : MemoryVerdict
  pub memory_chart : Bytes
  pub instances : List (InstanceRow F)
  pub versions : List (VersionStat F)
  pub downstream : DownstreamStat
  pub no_status : List NoStatusReasonStat
  pub p95_baseline : F
  pub p95_baseline_ok : Bool
  pub win_seconds : F
  pub baseline_seconds : F

-- A signal that is counted, and the lines of evidence that it adds behind others.
unfoldable pub signal_if : Bool → ℕ → ℕ
signal_if holds n = if holds then suc n else n

unfoldable pub lines_if : Bool → List Bytes → List Bytes → List Bytes
lines_if holds lines before = if holds then before ++ lines else before

module _ (fl : Float) where
  open fl use {F, lit, lt, le, add, mul, of_ℕ}

  -- A candidate that has not fired.
  unfoldable pub quiet : Bytes → ℕ → Cause F
  quiet name max_signals = record {
    name = name;
    dot_class = dot_warn;
    fired = false;
    signals = 0;
    max_signals = max_signals;
    mag = lit 0 1;
    summary = [];
    evidence = [];
    falsifier = [];
    chart = [];
  }

  unfoldable pub score : Cause F → F
  score c =
      let mag = if lt (lit 9 1) c.mag then lit 9 1 else c.mag in
      add (mul (of_ℕ c.signals) (lit 10 1)) mag

  unfoldable pub resource_rise_ratio : F
  resource_rise_ratio = lit 3 2

  unfoldable pub is_up : F → F → Bool
  is_up cur base = lt (lit 0 1) base && le (mul resource_rise_ratio base) cur
