-- ===== src/Stats.antt =====
-- The statistics of an endpoint as package storage answers them: server/internal/storage/debug.go,
-- dashboard.go, signature.go and instancewindows.go. The queries behind them are ClickHouse's.
use maping.Base.{ℕ, List}
use maping.Base.Assoc.{Map}
use maping.Base.Bytes.{Bytes}

pub record ClassStat : Type 0 where
  pub class : Bytes
  pub count : ℕ

-- The codes are a map, whose entries come in any order. The histogram is not read here.
pub record EndpointDetail (F : Type 0) : Type 0 where
  pub count : ℕ
  pub error_rate : F
  pub p50 : F
  pub p95 : F
  pub p99 : F
  pub status_classes : List ClassStat
  pub status_codes : Map ℕ ℕ

pub record InstanceStat (F : Type 0) : Type 0 where
  pub instance_name : Bytes
  pub count : ℕ
  pub error_rate : F
  pub p50 : F
  pub p95 : F
  pub p99 : F
  pub req_bytes_avg : F
  pub resp_bytes_avg : F

pub record VersionStat (F : Type 0) : Type 0 where
  pub version : Bytes
  pub count : ℕ
  pub error_rate : F
  pub p50 : F
  pub p95 : F
  pub p99 : F

pub record ClassLatency (F : Type 0) : Type 0 where
  pub count : ℕ
  pub p50 : F
  pub p95 : F
  pub p99 : F

pub record NoStatusReasonStat : Type 0 where
  pub reason : ℕ
  pub count : ℕ

pub record DownstreamStat : Type 0 where
  pub count : ℕ
  pub sum_duration_ns : ℕ
  pub sum_downstream_ns : ℕ

pub record InstanceResourceStat (F : Type 0) : Type 0 where
  pub instance_name : Bytes
  pub cpu_ns : ℕ
  pub rss_bytes : ℕ
  pub heap_alloc_bytes : ℕ
  pub gc_pause_ns : ℕ
  pub goroutines : ℕ
  pub num_gc : ℕ
  pub total_alloc_bytes : ℕ
  pub mallocs : ℕ
  pub gc_cpu_fraction : F
  pub heap_inuse_bytes : ℕ
  pub gomaxprocs : ℕ
  pub post_gc_heap_bytes : ℕ
  pub rss_true_bytes : ℕ
  pub open_fds : ℕ
  pub fd_limit : ℕ
  pub in_flight : ℕ
