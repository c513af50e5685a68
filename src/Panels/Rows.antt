-- ===== src/Panels/Rows.antt =====
-- The rows of the panels of an endpoint's page.
use maping.Base.{ℕ, Bool}
use maping.Base.Bytes.{Bytes}

pub record InstanceRow (F : Type 0) : Type 0 where
  pub instance_name : Bytes
  pub count : ℕ
  pub error_rate : F
  pub error_high : Bool
  pub p50 : F
  pub p95 : F
  pub p99 : F
  pub req_bytes_avg : F
  pub resp_bytes_avg : F
  pub is_outlier : Bool

pub record VersionRow (F : Type 0) : Type 0 where
  pub version : Bytes
  pub count : ℕ
  pub error_rate : F
  pub error_high : Bool
  pub p50 : F
  pub p95 : F
  pub p99 : F

pub record ClassLatencyRow (F : Type 0) : Type 0 where
  pub class : Bytes
  pub count : ℕ
  pub p50 : F
  pub p95 : F
  pub p99 : F

pub record NoStatusReasonRow : Type 0 where
  pub reason : Bytes
  pub count : ℕ

pub record DownstreamView (F : Type 0) : Type 0 where
  pub has_data : Bool
  pub self_seconds : F
  pub down_seconds : F
  pub self_width : Bytes
  pub down_width : Bytes
  pub down_fraction : F

pub record ResourceRow (F : Type 0) : Type 0 where
  pub instance_name : Bytes
  pub cores_used : F
  pub gc_share : F
  pub rss_bytes : F
  pub heap_bytes : F
  pub goroutines : ℕ
  pub gc_freq : F
  pub gc_cpu_fraction : F
  pub alloc_rate : F
  pub avg_alloc_size : F
  pub post_gc_heap : F
  pub true_rss_bytes : F
  pub has_true_rss : Bool
  pub open_fds : ℕ
  pub fd_limit : ℕ
  pub has_fd_limit : Bool
  pub in_flight : ℕ
