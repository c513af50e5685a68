-- ===== src/Sketch/Tests.antt =====
-- The theorems on the sketch at concrete inputs.
use maping.Base.{ℕ, ◌≡◌, ◌≢◌, refl, ◌+◌, ◌<◌, ◌≤◌, some, [], ◌∷◌, arith, get_or, take}
use maping.Base.Int.{pos, ◌+ℤ◌}
use maping.Base.Word.{add64}
use maping.Sketch.{
  DdSketch, num_buckets, new, bump, merge, index, value, min_index, clamp, observe, quantile,
  quantile_rank, to_buckets, from_buckets, quantile_from_buckets, domain_size,
}
use maping.Sketch.Whole.{whole, whole_laws, whole-init, whole_size}
use maping.Sketch.Invariant.{IsValid, new-IsValid, bump-IsValid, observe_total}
use maping.Sketch.Merge.{merge-feed, feed}
use maping.Sketch.Wire.{from_buckets-to_buckets}
use maping.Sketch.Rank.{sum, quantile_lem}
use maping.Sketch.Agreement.{quantile_from_buckets-to_buckets}

-- One latency of three seconds.
abbrev one_seen : DdSketch
one_seen = record { buckets = bump new.buckets 3 1; count = add64 new.count 1 }

one_seen-IsValid : IsValid whole one_seen
one_seen-IsValid =
    bump-IsValid whole new 3 1 whole-init (omega (arith, whole_size)) (new-IsValid whole)

one_seen_sum : sum one_seen.buckets ≡ 1
unfolding new bump num_buckets add64
one_seen_sum = refl

one_seen_count : one_seen.count ≡ 1
unfolding new add64
one_seen_count = refl

observe_total_example :
    (n : ℕ) × (t : DdSketch) × (index whole (clamp whole 70) ≡ pos n +ℤ min_index whole)
    × (observe whole new 70 ≡ some t)
    × IsValid whole t
    × (t.count ≡ add64 new.count 1)
    × (get_or t.buckets n 0 ≡ add64 (get_or new.buckets n 0) 1)
    × ((j : ℕ) → n ≢ j → get_or t.buckets j 0 ≡ get_or new.buckets j 0)
observe_total_example = observe_total whole whole_laws new 70 whole-init (new-IsValid whole)

merge-feed_example :
    (s : DdSketch) × (t : DdSketch) × (feed whole new (3 ∷ 70 ∷ []) ≡ some s)
    × (feed whole new (5 ∷ []) ≡ some t)
    × (feed whole new (3 ∷ 70 ∷ 5 ∷ []) ≡ some (merge s t))
    × IsValid whole (merge s t)
merge-feed_example = merge-feed whole whole_laws (3 ∷ 70 ∷ []) (5 ∷ []) whole-init

from_buckets-to_buckets_example : from_buckets whole (to_buckets whole one_seen) ≡ some one_seen
from_buckets-to_buckets_example =
    from_buckets-to_buckets whole whole_laws one_seen whole-init one_seen-IsValid

quantile_lem_example :
    (j : ℕ) × (quantile whole one_seen 1 ≡ value whole (pos j +ℤ min_index whole))
    × (j < domain_size whole)
    × (sum (take j one_seen.buckets) < quantile_rank whole 1 one_seen.count)
    × (quantile_rank whole 1 one_seen.count
        ≤ sum (take j one_seen.buckets) + get_or one_seen.buckets j 0)
    × (1 ≤ quantile_rank whole 1 one_seen.count)
    × (quantile_rank whole 1 one_seen.count ≤ one_seen.count)
quantile_lem_example =
    quantile_lem whole one_seen 1 one_seen-IsValid (omega (arith, one_seen_sum))
      (omega (arith, one_seen_count))

quantile_from_buckets-to_buckets_example :
    quantile_from_buckets whole (to_buckets whole one_seen) 1 ≡ quantile whole one_seen 1
quantile_from_buckets-to_buckets_example =
    quantile_from_buckets-to_buckets whole whole_laws one_seen 1 whole-init one_seen-IsValid
