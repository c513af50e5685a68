-- ===== src/Recorder/Swap.antt =====
-- The end of a window: the shards are emptied and their series merged into one map.
use maping.Base.{
  ℕ, suc, zero, ◌≡◌, ◌≢◌, refl, ap, ◌∙◌, sym, Option, none, some, List, [], ◌∷◌, length, get_or,
  arith, Option-cases, inl, inr, map,
}
use mathlib.Core.Logic.{if_pos, if_neg}
use maping.Base.Assoc.{
  lookup, insert, Distinct, lookup-insert, All-lookup, Distinct-insert, Fresh-lookup,
}
use maping.Float.{Float}
use maping.Series.{Series, SeriesKey}
use maping.Recorder.{Recorder, Shard, shard_of, series_key, copy, merge_shards, swap_shards}
use maping.Recorder.Observe.{IsValid, IsValidShard, series_of}

-- A read after a copy: what the source holds comes first.
abbrev over : Option Series → Option Series → Option Series
over (some s) o = some s
over none o = o

over-none : (o : Option Series) → over o none ≡ o
over-none none = refl
over-none (some s) = refl

lookup-copy :
    (k : SeriesKey) (dst src : Shard)
    → Distinct src
    → lookup k (copy dst src) ≡ over (lookup k src) (lookup k dst)
unfolding copy lookup
lookup-copy k dst [] d = refl
lookup-copy k dst ((j, s) ∷ src) d =
    lookup-copy k (insert j s dst) src d.1 ∙ elim (series_key.dec j k) [
      | yes same ↦
          let gone : lookup k src ≡ none = rw (← same) (Fresh-lookup j src d.0) in
          let now =
            lookup-insert j k s dst ∙ if_pos (series_key.dec j k) same (some s) (lookup k dst) in
          let held = if_pos (series_key.dec j k) same (some s) (lookup k src) in
          rw (held, gone, now) refl
      | no other ↦
          let now =
            lookup-insert j k s dst ∙ if_neg (series_key.dec j k) other (some s) (lookup k dst) in
          let held = if_neg (series_key.dec j k) other (some s) (lookup k src) in
          rw (held, now) refl
    ]

copy-Distinct : (dst src : Shard) → Distinct dst → Distinct (copy dst src)
unfolding copy
copy-Distinct dst [] d = d
copy-Distinct dst ((j, s) ∷ src) d = copy-Distinct (insert j s dst) src (Distinct-insert j s dst d)

merge_shards-Distinct : (m : Shard) (ms : List Shard) → Distinct m → Distinct (merge_shards m ms)
unfolding merge_shards
merge_shards-Distinct m [] d = d
merge_shards-Distinct m (old ∷ ms) d = merge_shards-Distinct (copy m old) ms (copy-Distinct m old d)

-- Shards in which a key is nowhere.
merge_shards_absent :
    (k : SeriesKey) (m : Shard) (ms : List Shard)
    → ((j : ℕ) → lookup k (get_or ms j []) ≡ none)
    → ((j : ℕ) → Distinct (get_or ms j []))
    → lookup k (merge_shards m ms) ≡ lookup k m
unfolding merge_shards
merge_shards_absent k m [] no_key d = refl
merge_shards_absent k m (old ∷ ms) no_key d =
    merge_shards_absent k (copy m old) ms (λ j. no_key (suc j)) (λ j. d (suc j))
    ∙ rw (lookup-copy k m old (d 0), no_key 0) refl

-- Shards of which one alone may hold a key.
merge_shards_one :
    (k : SeriesKey) (m : Shard) (ms : List Shard) (n : ℕ)
    → lookup k m ≡ none
    → ((j : ℕ) → j ≢ n → lookup k (get_or ms j []) ≡ none)
    → ((j : ℕ) → Distinct (get_or ms j []))
    → lookup k (merge_shards m ms) ≡ lookup k (get_or ms n [])
unfolding merge_shards lookup
merge_shards_one k m [] n h no_key d = h
merge_shards_one k m (old ∷ ms) zero h no_key d =
    merge_shards_absent k (copy m old) ms (λ j. no_key (suc j) (omega arith)) (λ j. d (suc j))
    ∙ lookup-copy k m old (d 0)
    ∙ rw h (over-none (lookup k old))
merge_shards_one k m (old ∷ ms) (suc n) h no_key d =
    merge_shards_one k (copy m old) ms n (rw (lookup-copy k m old (d 0), no_key 0 (omega arith)) h)
      (λ j other. no_key (suc j) (omega arith)) (λ j. d (suc j))

abbrev no_series : Shard → Shard
no_series m = []

emptied : (ms : List Shard) (i : ℕ) → get_or (map no_series ms) i [] ≡ []
emptied [] i = refl
emptied (m ∷ ms) zero = refl
emptied (m ∷ ms) (suc i) = emptied ms i

emptied_length : (ms : List Shard) → length (map no_series ms) ≡ length ms
emptied_length [] = refl
emptied_length (m ∷ ms) = ap suc (emptied_length ms)

module _ (fl : Float) where
  -- A key is in no shard but its own.
  elsewhere :
      (r : Recorder) (k : SeriesKey) (j : ℕ)
      → IsValid fl r
      → j ≢ shard_of k
      → lookup k (get_or r.shards j []) ≡ none
  elsewhere r k j v other = elim (Option-cases (lookup k (get_or r.shards j []))) [
    | inl e ↦ e
    | inr (s, e) ↦ absurd (
        other
          (sym (All-lookup (λ e. shard_of e.0 ≡ j) k s (get_or r.shards j []) e (v.each j).placed)))
  ]

  pub empty-IsValidShard : (i : ℕ) → IsValidShard fl i []
  empty-IsValidShard i = record { series = tt; placed = tt; distinct = tt }

  -- The end of a window, for a valid recorder. The window holds at each key the series that the
  -- recorder held there, no series is lost or taken twice, no key stands twice in it, and the
  -- recorder that remains is valid and holds no series.
  pub swap_shards_lem :
      (r : Recorder)
      → IsValid fl r
      → ((k : SeriesKey) → lookup k (swap_shards r).1 ≡ series_of fl r k)
        × Distinct (swap_shards r).1
        × IsValid fl (swap_shards r).0
        × ((k : SeriesKey) → series_of fl (swap_shards r).0 k ≡ none)
  unfolding swap_shards lookup
  swap_shards_lem r v = (
    λ k.
        merge_shards_one k [] r.shards (shard_of k) refl (λ j. elsewhere r k j v)
          (λ j. (v.each j).distinct),
    merge_shards-Distinct [] r.shards tt,
    record {
      sized = emptied_length r.shards ∙ v.sized;
      each = λ i. rw (emptied r.shards i) (empty-IsValidShard i);
    },
    λ k. rw (emptied r.shards (shard_of k)) refl,
  )
