-- ===== src/Recorder/Tests.antt =====
-- The theorems on the recorder at concrete inputs.
use maping.Base.{
  ℕ, zero, suc, ◌≡◌, refl, true, false, none, some, [], ◌∷◌, get_or, replicate, ite,
  length-replicate,
}
use maping.Base.Int.{ℤ, pos, negsuc}
use maping.Base.Word.{add64}
use maping.Base.Assoc.{Distinct, lookup}
use maping.Sketch.Whole.{whole, whole_laws, whole-init}
use maping.Series.{Series, SeriesKey, Record, observe_series}
use maping.Uploader
use maping.Recorder.{
  Recorder, Shard, num_shards, key_of, shard_of, series_at, series_key, observe, swap_shards,
}
use maping.Recorder.Observe.{IsValid, series_of, observe_lem}
use maping.Recorder.Swap.{empty-IsValidShard, swap_shards_lem}

abbrev idle : Recorder
idle = record {
  active = true;
  closed = false;
  shards = replicate num_shards [];
  upload = Uploader.start 10000000000;
}

idle_shard : (n i : ℕ) → get_or {A = Shard} (replicate n []) i [] ≡ []
idle_shard zero i = refl
idle_shard (suc n) zero = refl
idle_shard (suc n) (suc i) = idle_shard n i

idle-IsValid : IsValid whole idle
idle-IsValid = record {
  sized = length-replicate {A = Shard} num_shards [];
  each = λ i. rw (idle_shard num_shards i) (empty-IsValidShard whole i);
}

-- A redirect of two seconds.
abbrev redirect : Record
redirect = record {
  method = 71 ∷ 69 ∷ 84 ∷ [];
  route_template = 47 ∷ [];
  status = pos 302;
  duration = pos 2;
  req_bytes = pos 0;
  resp_bytes = pos 5;
  trace_id = [];
  span_id = [];
  request_id = [];
  error_class = [];
  no_status_reason = 0;
  downstream_duration = negsuc 4;
}

abbrev seconds : ℤ → ℕ
seconds (pos n) = n
seconds (negsuc n) = 0

observe_lem_example :
    let m = get_or idle.shards (shard_of (key_of redirect)) [] in
    (t : Series) × (observe_series whole seconds (series_at (key_of redirect) m) redirect (pos 7)
      ≡ some t)
    × (t.count ≡ add64 (series_at (key_of redirect) m).count 1)
    × ((j : SeriesKey)
        → series_of whole (observe whole seconds idle redirect (pos 7)) j
          ≡ ite (series_key.dec (key_of redirect) j) (some t) (series_of whole idle j))
    × IsValid whole (observe whole seconds idle redirect (pos 7))
observe_lem_example =
    observe_lem whole seconds whole_laws idle redirect (pos 7) whole-init refl refl idle-IsValid

abbrev busy : Recorder
busy = observe whole seconds idle redirect (pos 7)

busy-IsValid : IsValid whole busy
busy-IsValid =
    let (_, _, _, _, v) =
      observe_lem whole seconds whole_laws idle redirect (pos 7) whole-init refl refl
        idle-IsValid in
    v

swap_shards_lem_example :
    ((k : SeriesKey) → lookup k (swap_shards busy).1 ≡ series_of whole busy k)
    × Distinct (swap_shards busy).1
    × IsValid whole (swap_shards busy).0
    × ((k : SeriesKey) → series_of whole (swap_shards busy).0 k ≡ none)
swap_shards_lem_example = swap_shards_lem whole busy busy-IsValid
