-- ===== src/Causes/Resource.antt =====
-- server/internal/web/diagnosis_causes.go: memory, CPU and goroutines as causes.
use maping.Base.{ℕ, Bool, true, false, not, ◌&&◌, ◌||◌, List, [], ◌∷◌, ◌++◌, ltb, if◌then◌else◌}
use maping.Base.Bytes.{Bytes, codes, is_empty}
use maping.Float.{Float}
use maping.Format.{Strconv, long_dash, fmt_pct_d, fmt_bytes, fmt_rate, fmt_cores}
use maping.Memory.{Trend}
use maping.Verdict.{dot_warn, dot_err}
use maping.Causes.{Cause, DiagnosisParams, quiet, is_up, signal_if, lines_if}
use maping.Causes.Fleet.{FleetResources}

unfoldable pub is_leak : Trend → Bool
is_leak Trend.leak = true
is_leak Trend.unknown = false
is_leak Trend.burst = false
is_leak Trend.stable = false

unfoldable pub is_burst_level : Trend → Bool
is_burst_level Trend.burst = true
is_burst_level Trend.unknown = false
is_burst_level Trend.leak = false
is_burst_level Trend.stable = false

unfoldable pub goroutine_high_floor : ℕ
goroutine_high_floor = 500

module _ (fl : Float) where
  open fl use {F, lit, lt, le, add, mul, div, of_ℕ}

  unfoldable pub cpu_sat_ratio : F
  cpu_sat_ratio = lit 17 20

  unfoldable pub gc_cpu_elevated : F
  gc_cpu_elevated = lit 1 10

  unfoldable pub gc_up : FleetResources F → FleetResources F → Bool
  gc_up win base = le gc_cpu_elevated win.gc_cpu && is_up fl win.gc_cpu base.gc_cpu

  unfoldable pub alloc_up : FleetResources F → FleetResources F → Bool
  alloc_up win base = is_up fl win.alloc_rate base.alloc_rate

  unfoldable pub memory_signals : Trend → FleetResources F → FleetResources F → ℕ
  memory_signals level win base = signal_if (is_up fl win.gc_freq base.gc_freq) (
      signal_if (alloc_up win base)
        (signal_if (gc_up win base) (signal_if (is_leak level || is_burst_level level) 0)))

  module _ (go : Strconv F) where
    unfoldable pub memory_evidence :
        DiagnosisParams F → FleetResources F → FleetResources F → List Bytes
    memory_evidence p win base =
        lines_if (is_up fl win.gc_freq base.gc_freq)
          ((codes "GC frequency "
              ++ fmt_rate fl go win.gc_freq
              ++ codes "/s vs "
              ++ fmt_rate fl go base.gc_freq
              ++ codes "/s baseline.")
            ∷ [])
          (lines_if (alloc_up win base)
            ((codes "Alloc rate "
                ++ fmt_bytes fl go win.alloc_rate
                ++ codes "/s vs "
                ++ fmt_bytes fl go base.alloc_rate
                ++ codes "/s baseline.")
              ∷ [])
            (lines_if (gc_up win base)
              ((codes "GC CPU "
                  ++ fmt_pct_d fl go win.gc_cpu
                  ++ codes " vs "
                  ++ fmt_pct_d fl go base.gc_cpu
                  ++ codes " baseline.")
                ∷ [])
              (lines_if (is_leak p.memory.level || is_burst_level p.memory.level) p.memory.evidence
                [])))

    unfoldable pub memory_falsifier : Bytes → Bytes
    memory_falsifier given =
        if is_empty given
        then codes
            "Not memory-driven if heap and GC CPU stay flat over a longer window while latency"
          ++ codes " persists."
        else given

    unfoldable pub cause_memory : DiagnosisParams F → FleetResources F → FleetResources F → Cause F
    cause_memory p win base =
        let level = p.memory.level in
        let c = quiet fl (codes "Memory / GC pressure") 4 in
        let mag = mul win.gc_cpu (lit 10 1) in
        if not (is_leak level)
          && not (is_burst_level level)
          && not (gc_up win base && alloc_up win base)
        then c
        else record c {
          fired = true;
          summary =
              codes "Memory pressure is elevated: the service is allocating and garbage-collecting"
              ++ codes " more than usual, which slows request handling.";
          dot_class = if is_leak level then dot_err else dot_warn;
          evidence = memory_evidence p win base;
          signals = memory_signals level win base;
          chart = p.memory_chart;
          falsifier = memory_falsifier p.memory.falsifier;
          mag = if is_leak level then add mag (lit 3 1) else mag;
        }

    unfoldable pub cause_cpu : FleetResources F → Cause F
    cause_cpu win =
        let c = quiet fl (codes "CPU saturation") 1 in
        let ratio = div win.cores win.gomaxprocs in
        if le win.gomaxprocs (lit 0 1) then c else if lt ratio cpu_sat_ratio then c else record c {
          fired = true;
          summary =
              codes "CPU is near its configured capacity: there isn't much headroom left before"
              ++ codes " the service becomes compute-bound.";
          signals = 1;
          mag = ratio;
          evidence =
              (fmt_cores fl go win.cores
                ++ codes " used of "
                ++ go.fixed win.gomaxprocs 0
                ++ codes " available ("
                ++ fmt_pct_d fl go ratio
                ++ codes " of GOMAXPROCS).")
              ∷ [];
          falsifier =
              codes "Not CPU-bound if cores-used drops well below GOMAXPROCS while latency stays"
              ++ codes " high "
              ++ long_dash
              ++ codes " look to congestion or downstream.";
        }

    unfoldable pub cause_goroutine_leak : FleetResources F → FleetResources F → Cause F
    cause_goroutine_leak win base =
        let c = quiet fl (codes "Goroutine leak") 2 in
        if ltb win.goroutines goroutine_high_floor
          || not (is_up fl (of_ℕ win.goroutines) (of_ℕ base.goroutines))
        then c
        else record c {
          fired = true;
          summary =
              codes "The goroutine count keeps climbing and isn't coming back down, usually a sign"
              ++ codes " that something isn't being cleaned up.";
          signals = 2;
          mag = div (of_ℕ win.goroutines) (of_ℕ base.goroutines);
          evidence =
              (codes "Goroutines peaked "
                ++ go.format_uint win.goroutines
                ++ codes " vs "
                ++ go.format_uint base.goroutines
                ++ codes " baseline, above the "
                ++ go.format_uint goroutine_high_floor
                ++ codes " floor.")
              ∷ [];
          falsifier =
              codes "Not a leak if the goroutine count returns to baseline after load subsides "
              ++ long_dash
              ++ codes " re-check over a longer window.";
        }
