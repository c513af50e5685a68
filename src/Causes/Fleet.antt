-- ===== src/Causes/Fleet.antt =====
-- server/internal/web/diagnosis.go: what a fleet used over a window.
use maping.Base.{ℕ, ◌^◌, List, [], ◌∷◌, ltb, if◌then◌else◌}
use maping.Base.Word.{add64}
use maping.Float.{Float}
use maping.Stats.{InstanceResourceStat}

pub record FleetResources (F : Type 0) : Type 0 where
  pub cores : F
  pub gomaxprocs : F
  pub gc_cpu : F
  pub alloc_rate : F
  pub gc_freq : F
  pub goroutines : ℕ
  pub in_flight : ℕ
  pub open_fds : ℕ
  pub fd_limit : ℕ

-- The sums and peaks of the loop of `aggregateFleet`.
pub record Totals (F : Type 0) : Type 0 where
  pub cpu : ℕ
  pub alloc : ℕ
  pub num_gc : ℕ
  pub gomax : ℕ
  pub gc_cpu : F
  pub goroutines : ℕ
  pub in_flight : ℕ
  pub open_fds : ℕ
  pub fd_limit : ℕ

unfoldable pub peak : ℕ → ℕ → ℕ
peak so_far n = if ltb so_far n then n else so_far

module _ (fl : Float) where
  open fl use {F, lit, lt, mul, div, of_ℕ}

  unfoldable pub no_totals : Totals F
  no_totals = record {
    cpu = 0;
    alloc = 0;
    num_gc = 0;
    gomax = 0;
    gc_cpu = lit 0 1;
    goroutines = 0;
    in_flight = 0;
    open_fds = 0;
    fd_limit = 0;
  }

  unfoldable pub add_instance : Totals F → InstanceResourceStat F → Totals F
  add_instance t s = record {
    cpu = add64 t.cpu s.cpu_ns;
    alloc = add64 t.alloc s.total_alloc_bytes;
    num_gc = add64 t.num_gc s.num_gc;
    gomax = add64 t.gomax s.gomaxprocs;
    gc_cpu = if lt t.gc_cpu s.gc_cpu_fraction then s.gc_cpu_fraction else t.gc_cpu;
    goroutines = peak t.goroutines s.goroutines;
    in_flight = peak t.in_flight s.in_flight;
    open_fds = peak t.open_fds s.open_fds;
    fd_limit = peak t.fd_limit s.fd_limit;
  }

  unfoldable pub add_instances : Totals F → List (InstanceResourceStat F) → Totals F
  add_instances t [] = t
  add_instances t (s ∷ ss) = add_instances (add_instance t s) ss

  unfoldable pub rate : F → ℕ → F → F
  rate win_seconds n window = if lt (lit 0 1) win_seconds then div (of_ℕ n) window else lit 0 1

  unfoldable pub no_resources : FleetResources F
  no_resources = record {
    cores = lit 0 1;
    gomaxprocs = lit 0 1;
    gc_cpu = lit 0 1;
    alloc_rate = lit 0 1;
    gc_freq = lit 0 1;
    goroutines = 0;
    in_flight = 0;
    open_fds = 0;
    fd_limit = 0;
  }

  unfoldable pub aggregate_fleet : List (InstanceResourceStat F) → F → FleetResources F
  aggregate_fleet [] win_seconds = no_resources
  aggregate_fleet (s ∷ ss) win_seconds =
      let t = add_instances no_totals (s ∷ ss) in
      record {
        cores = rate win_seconds t.cpu (mul win_seconds (lit (10 ^ 9) 1));
        gomaxprocs = of_ℕ t.gomax;
        gc_cpu = t.gc_cpu;
        alloc_rate = rate win_seconds t.alloc win_seconds;
        gc_freq = rate win_seconds t.num_gc win_seconds;
        goroutines = t.goroutines;
        in_flight = t.in_flight;
        open_fds = t.open_fds;
        fd_limit = t.fd_limit;
      }
