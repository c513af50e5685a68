-- ===== src/Ingest/Tests.antt =====
-- The ingest handler at concrete inputs.
use maping.Base.{
  Selects, map, ℕ, ◌+◌, ◌≡◌, refl, Bool, true, false, Option, none, some, List, [], ◌∷◌, ◌++◌,
  length, if◌then◌else◌, ◌⊎◌, leb,
}
use maping.Base.Int.{ℤ, pos, ◌-ℤ◌}
use maping.Base.Bytes.{Bytes, codes, is_empty}
use maping.Series.{status_2xx}
use maping.Cardinality
use maping.Recorder.{Summary}
use maping.Ingest.Windows.{Usage, InstanceWindow, store_instance_windows}
use maping.Ingest.Riding.{Adds, store_instance_windows-Adds}
use maping.Ingest.{
  Row, Store, Batch, Upload, Deploy, Tenancy, from_milli, apply_timestamp_policy, skew_tolerance,
  saturate, negate, upload, authenticate, batch_of, unauthenticated, resource_exhausted, accepted,
}
use maping.Ingest.Skew.{passes, apply_timestamp_policy_lem}
use maping.Ingest.Stored.{InBand, Rejected, row_of, upload_lem}

abbrev now : ℤ
now = pos 1000000000000

-- Three hundred years ahead, in milliseconds.
abbrev far_ahead : ℤ
far_ahead = pos 9460800000000000

-- The window that is centuries ahead is accepted.
far_ahead_accepted :
    apply_timestamp_policy far_ahead far_ahead now
    ≡ some (from_milli far_ahead, from_milli far_ahead)
unfolding apply_timestamp_policy from_milli saturate negate skew_tolerance ◌-ℤ◌
far_ahead_accepted = refl

apply_timestamp_policy_lem_example : apply_timestamp_policy (pos 990000) far_ahead now ≡ (
    if passes (now -ℤ from_milli far_ahead)
    then some (from_milli (pos 990000), from_milli far_ahead)
    else none)
apply_timestamp_policy_lem_example = apply_timestamp_policy_lem (pos 990000) far_ahead now

abbrev summary : ℕ → Summary
summary end = record {
  window_start_ms = pos 0;
  window_end_ms = pos end;
  method = 71 ∷ [];
  route_template = 47 ∷ [];
  status_class = status_2xx;
  count = 1;
  sum_duration_ns = 3;
  req_bytes = 0;
  resp_bytes = 0;
  latency_sketch = [];
  status_code_breakdown = [];
  max_duration_ns = 3;
  exemplars = [];
  error_class_breakdown = [];
  no_status_reasons = [];
  sum_downstream_duration_ns = 0;
}

-- One summary of now and one of long ago.
abbrev some_summaries : List Summary
some_summaries = summary 1000000 ∷ summary 0 ∷ []

abbrev deploy : Deploy
deploy = record { version = 49 ∷ []; id = []; environment = []; region = []; start = none }

abbrev empty_store : Store
empty_store = record { rows = []; guard = some Cardinality.new }

abbrev batch : Batch
batch = record {
  tid = 116 ∷ [];
  service = 115 ∷ [];
  instance_ = 105 ∷ [];
  deploy = deploy;
  card_cap = pos 1;
  now = now;
  guard_now = 1000000000000;
}

-- A sink with room for one row.
abbrev full_after_one : List Row → Row → Bool
full_after_one rows row = leb 1 (length rows)

abbrev request : Upload
request = record {
  headers = record { authorization = []; maping_key = 107 ∷ [] };
  size = 100;
  service = 115 ∷ [];
  instance_ = 105 ∷ [];
  deploy = deploy;
  summaries = some_summaries;
}

abbrev trim : Bytes → Bytes
trim s = s

abbrev known : Bytes → Option Bytes
known key = some (116 ∷ key)

abbrev free_plan : Bytes → Tenancy
free_plan tid = record {
  allowed = true;
  payload_limit = some (pos 4194304);
  cap = some (pos 10000);
}

upload_lem_example :
    let r = upload full_after_one trim known free_plan empty_store request now 1000000000000 in
    ((r ≡ (empty_store, unauthenticated)) ⊎ (r ≡ (empty_store, resource_exhausted)))
    ⊎ ((tid : Bytes) × (n : ℕ) × (stored : List Summary) × (let b =
            batch_of full_after_one trim known free_plan request tid
              (free_plan tid).cap
              now
              1000000000000 in
          (authenticate trim known request.headers ≡ some tid)
          × (is_empty tid ≡ false)
          × (r.1 ≡ accepted n)
          × Selects (InBand b) (Rejected full_after_one b) request.summaries stored
          × (r.0.rows ≡ [] ++ map (row_of b) stored)
          × (length stored + n ≡ length request.summaries)))
upload_lem_example =
    upload_lem full_after_one trim known free_plan empty_store request now 1000000000000

abbrev no_usage : Usage ℕ
no_usage = record {
  cpu_ns = 0;
  rss_bytes = 0;
  heap_alloc_bytes = 0;
  gc_pause_ns = 0;
  goroutines = 8;
  num_gc = 0;
  total_alloc_bytes = 0;
  mallocs = 0;
  gc_cpu_fraction = 0;
  heap_inuse_bytes = 0;
  gomaxprocs = 4;
  post_gc_heap_bytes = 0;
  rss_true_bytes = 0;
  open_fds = 3;
  fd_limit = 0;
  in_flight = 1;
}

-- A window, a nil window, and one that ends an hour away.
abbrev windows : List (Option (InstanceWindow ℕ))
windows =
    some (record { window_start_ms = pos 0; window_end_ms = pos 10000; usage = no_usage })
    ∷ none
    ∷ some (record { window_start_ms = pos 0; window_end_ms = pos 3600000; usage = no_usage })
    ∷ []

store_instance_windows-Adds_example :
    Adds (codes "acme") (codes "shop") (codes "i1") (pos 20000000000) [] (
      store_instance_windows
        (some (λ taken row. false))
        (codes "acme")
        (codes "shop")
        (codes "i1")
        (pos 20000000000)
        []
        windows)
store_instance_windows-Adds_example =
    store_instance_windows-Adds (codes "acme") (codes "shop") (codes "i1") (pos 20000000000)
      (some (λ taken row. false)) [] windows
