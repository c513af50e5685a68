-- ===== src/Recorder.antt =====
-- client/maping.go and `swapShards`, `flush`, `buildRequest` of client/uploader.go: the recorder.
-- A shard's map is its list of series. A lock is held for the whole of each operation on a shard,
-- so operations on the recorder are functions, in the order in which they take the lock.
pub mod Observe
pub mod Swap
mod Tests
use maping.Base.{
  ℕ, suc, zero, ◌+◌, ◌-◌, ◌/◌, ◌%◌, Bool, true, false, ◌||◌, not, Option, none, some, List, [], ◌∷◌,
  ◌++◌, get_or, set, replicate, if◌then◌else◌, map,
}
use maping.Base.Int.{ℤ, pos, negsuc, ◌-ℤ◌}
use maping.Base.Bytes.{Bytes, bytes_discrete}
use maping.Base.Assoc.{Map, Key, lookup, insert}
use maping.Float.{Float}
use maping.Sketch
use maping.Series.{
  Series, SeriesKey, SeriesKey-discrete, StatusClass, Record, Exemplar, classify, hash, new_series,
  add_sizes, observe_series, exemplars,
}
use maping.Uploader
use maping.Uploader.{Loop}

abbrev pub num_shards : ℕ
num_shards = 16

instance abbrev pub series_key : Key SeriesKey
series_key = record { dec = SeriesKey-discrete }

abbrev pub Shard : Type 0
Shard = Map SeriesKey Series

unfoldable pub key_of : Record → SeriesKey
key_of rec = record { method = rec.method; route = rec.route_template; class = classify rec.status }

-- key.hash() & shardMask, the mask being 2^4 - 1.
unfoldable pub shard_of : SeriesKey → ℕ
shard_of k = hash k % num_shards

-- The series at a key, or the one that is inserted there.
unfoldable pub series_at : SeriesKey → Shard → Series
series_at k m = elim (lookup k m) [ none ↦ new_series | some s ↦ s ]

-- One summary of a request, with the fields that come from its series.
pub record Summary : Type 0 where
  pub window_start_ms : ℤ
  pub window_end_ms : ℤ
  pub method : Bytes
  pub route_template : Bytes
  pub status_class : StatusClass
  pub count : ℕ
  pub sum_duration_ns : ℕ
  pub req_bytes : ℕ
  pub resp_bytes : ℕ
  pub latency_sketch : Map ℤ ℕ
  pub status_code_breakdown : Map ℕ ℕ
  pub max_duration_ns : ℕ
  pub exemplars : List Exemplar
  pub error_class_breakdown : Map Bytes ℕ
  pub no_status_reasons : Map ℕ ℕ
  pub sum_downstream_duration_ns : ℕ

-- `active` is false for the recorder with no key, which has no transport.
pub record Recorder : Type 0 where
  pub active : Bool
  pub closed : Bool
  pub shards : List Shard
  pub upload : Loop Summary

module _ (fl : Float) (seconds : ℤ → fl.F) where
  -- A panic in the sketch is recovered: what was added before it stays.
  unfoldable pub observe_shard : Shard → Record → ℤ → Shard
  observe_shard m rec now_ms =
      elim (observe_series fl seconds (series_at (key_of rec) m) rec now_ms) [
        | none ↦ insert (key_of rec) (add_sizes (series_at (key_of rec) m) rec) m
        | some s ↦ insert (key_of rec) s m
      ]

  unfoldable pub observe : Recorder → Record → ℤ → Recorder
  observe r rec now_ms =
      let i = shard_of (key_of rec) in
      if not r.active || r.closed
      then r
      else record r { shards = set r.shards i (observe_shard (get_or r.shards i []) rec now_ms) }

-- time.Time.UnixMilli of a time in nanoseconds: the quotient rounded down.
unfoldable pub unix_milli : ℤ → ℤ
unix_milli (pos n) = pos (n / 1000000)
unix_milli (negsuc n) = negsuc (n / 1000000)

-- maps.Copy(dst, src)
unfoldable pub copy : Shard → Shard → Shard
copy dst [] = dst
copy dst ((k, s) ∷ src) = copy (insert k s dst) src

-- The loop of `swapShards` over the shards that are left.
unfoldable pub merge_shards : Shard → List Shard → Shard
merge_shards merged [] = merged
merge_shards merged (old ∷ shards) = merge_shards (copy merged old) shards

unfoldable pub swap_shards : Recorder → Recorder × Shard
swap_shards r = (record r { shards = map (λ (m : Shard). []) r.shards }, merge_shards [] r.shards)

module _ (fl : Float) where
  -- The times are nanoseconds: the window's end, and the flush window.
  unfoldable pub summary_of : ℤ → ℕ → SeriesKey → Series → Summary
  summary_of end_ns flush_window k s = record {
    window_start_ms = unix_milli (end_ns -ℤ pos flush_window);
    window_end_ms = unix_milli end_ns;
    method = k.method;
    route_template = k.route;
    status_class = k.class;
    count = s.count;
    sum_duration_ns = s.sum_duration_ns;
    req_bytes = s.req_bytes;
    resp_bytes = s.resp_bytes;
    latency_sketch = Sketch.to_buckets fl s.sk;
    status_code_breakdown = s.status_codes;
    max_duration_ns = s.max_duration_ns;
    exemplars = exemplars s;
    error_class_breakdown = s.error_classes;
    no_status_reasons = s.no_status_reasons;
    sum_downstream_duration_ns = s.sum_downstream_ns;
  }

  unfoldable pub build_summaries : ℤ → ℕ → Shard → List Summary
  build_summaries end_ns flush_window window =
      map (λ (e : SeriesKey × Series). summary_of end_ns flush_window e.0 e.1) window

  -- `flush`: the window goes from the shards to the ring.
  unfoldable pub flush : Recorder → ℤ → Recorder × Bool
  flush r end_ns =
      let (r', window) = swap_shards r in
      let (l, pushed) =
        Uploader.flush_window r'.upload (build_summaries end_ns r.upload.flush_window window) in
      (record r' { upload = l }, pushed)
