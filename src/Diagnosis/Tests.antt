-- ===== src/Diagnosis/Tests.antt =====
-- A failing endpoint with a goroutine leak, in whole numbers.
use maping.Base.{ltb, ℕ, ◌≡◌, refl, ◌⊎◌, ◌≢◌, false, true, [], ◌∷◌, All, arith}
use mathlib.Core.List.{Perm}
use maping.Base.Bytes.{codes}
use maping.Base.Sort.{IsOrdered}
use maping.Format.Digits.{last_digit}
use maping.Sketch.Whole.{whole}
use maping.Stats.{InstanceResourceStat}
use maping.Memory.{compute_memory_verdict}
use maping.Verdict.{Detail, compute_verdict, err_sev, sev_none, error_severity, error_count}
use maping.Causes.{Cause, DiagnosisParams, score}
use maping.Diagnosis.{compute_diagnosis, ranked, fired_causes}
use maping.Diagnosis.Fired.{Corroborated}
use maping.Diagnosis.Card.{
  Anomaly, Calm, Asymmetric, Lists, ranked_lem, compute_diagnosis_lem, errors_diagnosed,
}

-- A hundred requests, all of them errors.
abbrev failing : Detail ℕ
failing = record {
  count = 100;
  error_rate = 1;
  error_high = true;
  p50 = 1;
  p95 = 2;
  p99 = 2;
  classes = [];
  codes = [];
}

abbrev goroutines_of : ℕ → InstanceResourceStat ℕ
goroutines_of n = record {
  instance_name = codes "a";
  cpu_ns = 0;
  rss_bytes = 0;
  heap_alloc_bytes = 0;
  gc_pause_ns = 0;
  goroutines = n;
  num_gc = 0;
  total_alloc_bytes = 0;
  mallocs = 0;
  gc_cpu_fraction = 0;
  heap_inuse_bytes = 0;
  gomaxprocs = 4;
  post_gc_heap_bytes = 0;
  rss_true_bytes = 0;
  open_fds = 0;
  fd_limit = 0;
  in_flight = 1;
}

abbrev leaking : DiagnosisParams ℕ
leaking = record {
  detail = failing;
  verdict = compute_verdict whole last_digit failing [] 60;
  resources = goroutines_of 900 ∷ [];
  resource_baseline = goroutines_of 300 ∷ [];
  memory = compute_memory_verdict whole last_digit [];
  memory_chart = [];
  instances = [];
  versions = [];
  downstream = record { count = 0; sum_duration_ns = 0; sum_downstream_ns = 0 };
  no_status = [];
  p95_baseline = 0;
  p95_baseline_ok = false;
  win_seconds = 60;
  baseline_seconds = 60;
}

ltb_asym : Asymmetric whole
unfolding Asymmetric
ltb_asym a b h = ground arith

ranked_lem_example :
    Perm (ranked whole last_digit leaking) (fired_causes whole last_digit leaking)
    × All (Corroborated whole) (ranked whole last_digit leaking)
    × IsOrdered
        (λ (a b : Cause ℕ). ltb (score whole b) (score whole a))
        (ranked whole last_digit leaking)
ranked_lem_example = ranked_lem whole last_digit leaking ltb_asym

compute_diagnosis_lem_example :
    Anomaly leaking.verdict.level leaking.memory.level
      × Lists whole last_digit
          (ranked whole last_digit leaking)
          (compute_diagnosis whole last_digit leaking)
    ⊎ Calm leaking.verdict.level leaking.memory.level
      × ((compute_diagnosis whole last_digit leaking).show ≡ false)
compute_diagnosis_lem_example = compute_diagnosis_lem whole last_digit leaking

failing_errors : err_sev whole failing ≢ sev_none
unfolding err_sev error_severity error_count
failing_errors e = cc e

errors_diagnosed_example :
    Lists whole last_digit
      (ranked whole last_digit leaking)
      (compute_diagnosis whole last_digit leaking)
errors_diagnosed_example = errors_diagnosed whole last_digit leaking [] refl failing_errors
