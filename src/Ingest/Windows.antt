-- ===== src/Ingest/Windows.antt =====
-- server/internal/ingest: the resource windows of the instances, which ride along with an upload,
-- and the handshake of a starting client.
use maping.Base.{ℕ, Bool, true, false, Option, none, some, List, [], ◌∷◌, ◌++◌, if◌then◌else◌}
use maping.Base.Bytes.{Bytes}
use maping.Base.Int.{ℤ}
use maping.Ingest.{apply_timestamp_policy, authenticate, Headers}

-- The counters and gauges of a window. F is float64.
pub record Usage (F : Type 0) : Type 0 where
  pub cpu_ns : ℕ
  pub rss_bytes : ℕ
  pub heap_alloc_bytes : ℕ
  pub gc_pause_ns : ℕ
  pub goroutines : ℕ
  pub num_gc : ℕ
  pub total_alloc_bytes : ℕ
  pub mallocs : ℕ
  pub gc_cpu_fraction : F
  pub heap_inuse_bytes : ℕ
  pub gomaxprocs : ℕ
  pub post_gc_heap_bytes : ℕ
  pub rss_true_bytes : ℕ
  pub open_fds : ℕ
  pub fd_limit : ℕ
  pub in_flight : ℕ

pub record InstanceWindow (F : Type 0) : Type 0 where
  pub window_start_ms : ℤ
  pub window_end_ms : ℤ
  pub usage : Usage F

-- A row, with the usage of its window field by field.
pub record InstanceWindowRow (F : Type 0) : Type 0 where
  pub tenant : Bytes
  pub service : Bytes
  pub instance_name : Bytes
  pub window_start : ℤ
  pub window_end : ℤ
  pub usage : Usage F

-- The handshake that is recorded for the onboarding page.
pub record Handshake : Type 0 where
  pub service : Bytes
  pub instance_name : Bytes
  pub sdk_version : Bytes

-- The handshakes recorded after a Register, whether it is accepted, and what it answers where the
-- recorder fails; `records` is none without a recorder, and else whether it succeeds.
unfoldable pub register :
    (Bytes → Bytes)
    → (Bytes → Option Bytes)
    → Option Bool
    → List (Bytes × Handshake)
    → Headers
    → Handshake
    → List (Bytes × Handshake) × Bool
register trim_space resolver records log headers h =
    elim (authenticate trim_space resolver headers) [
      | none ↦ (log, false)
      | some tid ↦ elim records [
        | none ↦ (log, true)
        | some ok ↦ (if ok then log ++ (tid, h) ∷ [] else log, true)
      ]
    ]

module _ {F : Type 0} where
  -- The row of a window with its times, if the policy gives it any.
  unfoldable pub row_at :
      Bytes → Bytes → Bytes → Usage F → Option (ℤ × ℤ) → Option (InstanceWindowRow F)
  row_at tid service inst usage none = none
  row_at tid service inst usage (some (start, end)) = some (record {
    tenant = tid;
    service = service;
    instance_name = inst;
    window_start = start;
    window_end = end;
    usage = usage;
  })

  -- None is a nil window.
  unfoldable pub instance_window_to_row :
      Bytes → Bytes → Bytes → Option (InstanceWindow F) → ℤ → Option (InstanceWindowRow F)
  instance_window_to_row tid service inst none now = none
  instance_window_to_row tid service inst (some iw) now =
      row_at tid service inst iw.usage
        (apply_timestamp_policy iw.window_start_ms iw.window_end_ms now)

  -- The sink may be missing; it refuses a row by its answer to the rows that it has taken. The
  -- first refusal ends the loop.
  unfoldable pub store_rows :
      (List (InstanceWindowRow F) → InstanceWindowRow F → Bool)
      → Bytes
      → Bytes
      → Bytes
      → ℤ
      → List (InstanceWindowRow F)
      → List (Option (InstanceWindow F))
      → List (InstanceWindowRow F)
  store_rows refuses tid service inst now taken [] = taken
  store_rows refuses tid service inst now taken (iw ∷ iws) =
      elim (instance_window_to_row tid service inst iw now) [
        | none ↦ store_rows refuses tid service inst now taken iws
        | some row ↦
            let rest = store_rows refuses tid service inst now (taken ++ row ∷ []) iws in
            if refuses taken row then taken else rest
      ]

  unfoldable pub store_instance_windows :
      Option (List (InstanceWindowRow F) → InstanceWindowRow F → Bool)
      → Bytes
      → Bytes
      → Bytes
      → ℤ
      → List (InstanceWindowRow F)
      → List (Option (InstanceWindow F))
      → List (InstanceWindowRow F)
  store_instance_windows none tid service inst now taken iws = taken
  store_instance_windows (some refuses) tid service inst now taken iws =
      store_rows refuses tid service inst now taken iws
