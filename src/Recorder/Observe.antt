-- ===== src/Recorder/Observe.antt =====
-- One request and the shards.
use mathlib.Core.Logic.{if_neg}
use maping.Base.{
  ℕ, ◌<◌, ◌≡◌, refl, ap, ◌∙◌, true, false, Option, some, [], length, get_or, set, All, arith, ite,
  Option-cases, inl, inr, length-set, get_or-set_self, get_or-set_ne, ℕ_discrete,
}
use maping.Base.Int.{ℤ}
use maping.Base.Word.{add64}
use maping.Base.Assoc.{
  lookup, insert, Distinct, lookup-insert, All-insert, All-lookup, Distinct-insert,
}
use maping.Float.{Float}
use maping.Sketch
use maping.Sketch.Domain.{MathLaws}
use maping.Series.{Series, SeriesKey, Record, new_series, observe_series}
use maping.Series.Valid.{new_series-IsValid, observe_series_total}
use maping.Series
use maping.Recorder.{
  Recorder, Shard, num_shards, key_of, shard_of, series_at, series_key, observe_shard, observe,
}

pub shard_of-lt : (k : SeriesKey) → shard_of k < num_shards
unfolding shard_of
shard_of-lt k = omega arith

module _ (fl : Float) where
  -- A shard holds valid series, each key once and only keys that hash to the shard.
  pub record IsValidShard (i : ℕ) (m : Shard) : Type 0 where
    pub series : All (λ e. Series.Valid.IsValid fl e.1) m
    pub placed : All (λ e. shard_of e.0 ≡ i) m
    pub distinct : Distinct m

  pub record IsValid (r : Recorder) : Type 0 where
    pub sized : length r.shards ≡ num_shards
    pub each : (i : ℕ) → IsValidShard i (get_or r.shards i [])

  -- The series that the recorder holds at a key.
  abbrev pub series_of : Recorder → SeriesKey → Option Series
  series_of r k = lookup k (get_or r.shards (shard_of k) [])

  series_at-IsValid :
      (i : ℕ) (k : SeriesKey) (m : Shard)
      → IsValidShard i m
      → Series.Valid.IsValid fl (series_at k m)
  unfolding series_at
  series_at-IsValid i k m v = elim (Option-cases (lookup k m)) [
    | inl new ↦ rw (new, series_at) (new_series-IsValid fl)
    | inr (s, e) ↦
        rw (e, series_at) (All-lookup (λ e. Series.Valid.IsValid fl e.1) k s m e v.series)
  ]

  insert-IsValidShard :
      (k : SeriesKey) (s : Series) (m : Shard)
      → Series.Valid.IsValid fl s
      → IsValidShard (shard_of k) m
      → IsValidShard (shard_of k) (insert k s m)
  insert-IsValidShard k s m h v = record {
    series = All-insert (λ e. Series.Valid.IsValid fl e.1) k s m h v.series;
    placed = All-insert (λ e. shard_of e.0 ≡ shard_of k) k s m refl v.placed;
    distinct = Distinct-insert k s m v.distinct;
  }

  set-IsValid :
      (r : Recorder) (i : ℕ) (m : Shard)
      → i < num_shards
      → IsValidShard i m
      → IsValid r
      → IsValid (record r { shards = set r.shards i m })
  set-IsValid r i m lt h v = record {
    sized = length-set r.shards i m ∙ v.sized;
    each = λ j. elim (ℕ_discrete i j) [
      | yes same ↦ rw (← same, get_or-set_self r.shards i m [] (omega (arith, v.sized))) h
      | no other ↦ rw (get_or-set_ne r.shards i j m [] other) (v.each j)
    ];
  }

  -- A write of a series in the shard of its key.
  store : Recorder → SeriesKey → Series → Recorder
  store r k t = record r {
    shards = set r.shards (shard_of k) (insert k t (get_or r.shards (shard_of k) []));
  }

  series_of-store :
      (r : Recorder) (k : SeriesKey) (t : Series) (j : SeriesKey)
      → IsValid r
      → series_of (store r k t) j ≡ ite (series_key.dec k j) (some t) (series_of r j)
  unfolding store
  series_of-store r k t j v =
      let m = get_or r.shards (shard_of k) [] in
      elim (ℕ_discrete (shard_of k) (shard_of j)) [
        | yes same ↦
            rw
              (
                ← same,
                get_or-set_self r.shards (shard_of k) (insert k t m) []
                    (omega (arith, v.sized, shard_of-lt k)),
              )
              (lookup-insert k j t m)
        | no other ↦
            rw
              (
                get_or-set_ne r.shards (shard_of k) (shard_of j) (insert k t m) [] other,
                if_neg (series_key.dec k j) (λ e. other (ap shard_of e)),
              )
              refl
      ]

  store-IsValid :
      (r : Recorder) (k : SeriesKey) (t : Series)
      → Series.Valid.IsValid fl t
      → IsValid r
      → IsValid (store r k t)
  unfolding store
  store-IsValid r k t h v =
      set-IsValid r (shard_of k) (insert k t (get_or r.shards (shard_of k) [])) (shard_of-lt k)
        (insert-IsValidShard k t (get_or r.shards (shard_of k) []) h (v.each (shard_of k))) v

  module _ (seconds : ℤ → fl.F) where
    observe_shard-insert :
        (m : Shard) (rec : Record) (now_ms : ℤ) (t : Series)
        → observe_series fl seconds (series_at (key_of rec) m) rec now_ms ≡ some t
        → observe_shard fl seconds m rec now_ms ≡ insert (key_of rec) t m
    unfolding observe_shard
    observe_shard-insert m rec now_ms t e = rw (e, observe_shard) refl

    observe-store :
        (r : Recorder) (rec : Record) (now_ms : ℤ) (t : Series)
        → r.active ≡ true
        → r.closed ≡ false
        → observe_series fl seconds
            (series_at (key_of rec) (get_or r.shards (shard_of (key_of rec)) []))
            rec
            now_ms
          ≡ some t
        → observe fl seconds r rec now_ms ≡ store r (key_of rec) t
    unfolding observe store
    observe-store r rec now_ms t on open_ e =
        let m = get_or r.shards (shard_of (key_of rec)) [] in
        rw (on, open_, observe_shard-insert m rec now_ms t e) refl

    -- A request on a recorder that takes it: active, not closed and valid. The record is folded
    -- into the series at its key, which is new when there is none, and that always succeeds; the
    -- series of every other key stays as it was; and the recorder stays valid.
    pub observe_lem :
        (w : MathLaws fl) (r : Recorder) (rec : Record) (now_ms : ℤ)
        → Sketch.init fl ≡ true
        → r.active ≡ true
        → r.closed ≡ false
        → IsValid r
        → let m = get_or r.shards (shard_of (key_of rec)) [] in
          (t : Series) × (observe_series fl seconds (series_at (key_of rec) m) rec now_ms ≡ some t)
          × (t.count ≡ add64 (series_at (key_of rec) m).count 1)
          × ((j : SeriesKey)
              → series_of (observe fl seconds r rec now_ms) j
                ≡ ite (series_key.dec (key_of rec) j) (some t) (series_of r j))
          × IsValid (observe fl seconds r rec now_ms)
    observe_lem w r rec now_ms h on open_ v =
        let k = key_of rec in
        let m = get_or r.shards (shard_of k) [] in
        let (t, e, val, up, _, _) =
          observe_series_total fl seconds w (series_at k m) rec now_ms h
            (series_at-IsValid (shard_of k) k m (v.each (shard_of k))) in
        let same = observe-store r rec now_ms t on open_ e in
        (t, e, up, λ j. rw same (series_of-store r k t j v), rw same (store-IsValid r k t val v))
