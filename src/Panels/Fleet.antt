-- ===== src/Panels/Fleet.antt =====
-- server/internal/web/view_detail.go: the panels on replicas, versions, resources and downstream time.
use maping.Base.{
  ℕ, ◌^◌, Bool, true, false, not, ◌&&◌, ◌||◌, List, [], ◌∷◌, ◌++◌, map, length, keep, ltb, leb,
  ◌==◌, if◌then◌else◌,
}
use maping.Base.Bytes.{Bytes, codes, is_empty}
use maping.Base.Sort.{sort_by}
use maping.Base.Word.{sub64}
use maping.Float.{Float}
use maping.Format.{Strconv}
use maping.Stats.{EndpointDetail, InstanceStat, VersionStat, DownstreamStat, InstanceResourceStat}
use maping.Verdict.{Detail, median, float_less}
use maping.Panels.{class_view, sorted_codes}
use maping.Panels.Rows.{InstanceRow, VersionRow, DownstreamView, ResourceRow}

-- The downstream time is at most the total.
unfoldable pub down_ns : DownstreamStat → ℕ
down_ns s =
    if ltb s.sum_duration_ns s.sum_downstream_ns then s.sum_duration_ns else s.sum_downstream_ns

unfoldable pub self_ns : DownstreamStat → ℕ
self_ns s = sub64 s.sum_duration_ns (down_ns s)

module _ (fl : Float) where
  open fl use {F, lit, lt, le, sub, mul, div, of_ℕ}

  unfoldable pub error_rate_warn : F
  error_rate_warn = lit 1 20

  unfoldable pub p95_outlier_floor : F
  p95_outlier_floor = lit 1 10

  unfoldable pub to_detail_view : EndpointDetail F → Detail F
  to_detail_view d = record {
    count = d.count;
    error_rate = d.error_rate;
    error_high = le error_rate_warn d.error_rate;
    p50 = d.p50;
    p95 = d.p95;
    p99 = d.p99;
    classes = map class_view d.status_classes;
    codes = sorted_codes d.status_codes;
  }

  -- The 95th percentiles of the replicas with traffic, and their median.
  unfoldable pub busy_p95s : List (InstanceStat F) → List F
  busy_p95s [] = []
  busy_p95s (s ∷ ss) = let rest = busy_p95s ss in if ltb 0 s.count then s.p95 ∷ rest else rest

  unfoldable pub fleet_median : List (InstanceStat F) → F
  fleet_median stats =
      let p95s = busy_p95s stats in
      if ltb 0 (length p95s) then median fl (sort_by (float_less fl) p95s) else lit 0 1

  unfoldable pub is_outlier : List (InstanceStat F) → InstanceStat F → Bool
  is_outlier stats s =
      leb 2 (length (busy_p95s stats))
      && le (mul (lit 2 1) (fleet_median stats)) s.p95
      && le p95_outlier_floor s.p95

  unfoldable pub to_instance_rows : List (InstanceStat F) → List (InstanceRow F)
  to_instance_rows stats =
      map
        (λ (s : InstanceStat F). record {
          instance_name = s.instance_name;
          count = s.count;
          error_rate = s.error_rate;
          error_high = le error_rate_warn s.error_rate;
          p50 = s.p50;
          p95 = s.p95;
          p99 = s.p99;
          req_bytes_avg = s.req_bytes_avg;
          resp_bytes_avg = s.resp_bytes_avg;
          is_outlier = is_outlier stats s;
        })
        stats

  unfoldable pub to_version_rows : List (VersionStat F) → List (VersionRow F)
  to_version_rows stats =
      map
        (λ (s : VersionStat F). record {
          version = s.version;
          count = s.count;
          error_rate = s.error_rate;
          error_high = le error_rate_warn s.error_rate;
          p50 = s.p50;
          p95 = s.p95;
          p99 = s.p99;
        })
        (keep (λ (s : VersionStat F). not (is_empty s.version)) stats)

  unfoldable pub down_fraction : DownstreamStat → F
  down_fraction s =
      if ltb 0 s.sum_duration_ns then div (of_ℕ (down_ns s)) (of_ℕ s.sum_duration_ns) else lit 0 1

  unfoldable pub percent_width : Strconv F → F → Bytes
  percent_width go pct = go.fixed pct 1 ++ codes "%"

  unfoldable pub to_downstream_view : Strconv F → DownstreamStat → DownstreamView F
  to_downstream_view go s =
      if s.count == 0 || s.sum_downstream_ns == 0
      then record {
        has_data = false;
        self_seconds = lit 0 1;
        down_seconds = lit 0 1;
        self_width = [];
        down_width = [];
        down_fraction = lit 0 1;
      }
      else record {
        has_data = true;
        self_seconds = div (div (of_ℕ (self_ns s)) (of_ℕ s.count)) (lit (10 ^ 9) 1);
        down_seconds = div (div (of_ℕ (down_ns s)) (of_ℕ s.count)) (lit (10 ^ 9) 1);
        self_width = percent_width go (sub (lit 100 1) (mul (down_fraction s) (lit 100 1)));
        down_width = percent_width go (mul (down_fraction s) (lit 100 1));
        down_fraction = down_fraction s;
      }

  -- A rate over the window, zero where the window is not positive.
  unfoldable pub over_window : F → ℕ → F → F
  over_window win_seconds n window =
      if lt (lit 0 1) win_seconds then div (of_ℕ n) window else lit 0 1

  unfoldable pub gc_share : F → ℕ → F
  gc_share win_seconds gc_pause_ns =
      let share = over_window win_seconds gc_pause_ns (mul win_seconds (lit (10 ^ 9) 1)) in
      if lt (lit 1 1) share then lit 1 1 else share

  unfoldable pub to_resource_rows : List (InstanceResourceStat F) → F → List (ResourceRow F)
  to_resource_rows stats win_seconds =
      map
        (λ (s : InstanceResourceStat F). record {
          instance_name = s.instance_name;
          cores_used = over_window win_seconds s.cpu_ns (mul win_seconds (lit (10 ^ 9) 1));
          gc_share = gc_share win_seconds s.gc_pause_ns;
          rss_bytes = of_ℕ s.rss_bytes;
          heap_bytes = of_ℕ s.heap_alloc_bytes;
          goroutines = s.goroutines;
          gc_freq = over_window win_seconds s.num_gc win_seconds;
          gc_cpu_fraction = s.gc_cpu_fraction;
          alloc_rate = over_window win_seconds s.total_alloc_bytes win_seconds;
          avg_alloc_size =
              if ltb 0 s.mallocs then div (of_ℕ s.total_alloc_bytes) (of_ℕ s.mallocs) else lit 0 1;
          post_gc_heap = of_ℕ s.post_gc_heap_bytes;
          true_rss_bytes = of_ℕ s.rss_true_bytes;
          has_true_rss = ltb 0 s.rss_true_bytes;
          open_fds = s.open_fds;
          fd_limit = s.fd_limit;
          has_fd_limit = ltb 0 s.fd_limit;
          in_flight = s.in_flight;
        })
        stats
