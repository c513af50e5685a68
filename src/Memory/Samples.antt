-- ===== src/Memory/Samples.antt =====
-- server/internal/web/memory.go: the samples of a window's points and the measures on them that
-- computeMemoryVerdict takes.
use maping.Base.{
  ℕ, ◌*◌, ◌/◌, ◌^◌, Bool, not, ◌&&◌, List, [], ◌∷◌, map, length, take, drop, keep, ltb, leb, ◌==◌,
  if◌then◌else◌,
}
use maping.Base.Word.{sub64}

-- The fields of storage.MemoryTrendPoint that are read.
pub record MemoryTrendPoint : Type 0 where
  pub post_gc_heap_bytes : ℕ
  pub heap_inuse_bytes : ℕ

unfoldable pub leak_rise_floor_bytes : ℕ
leak_rise_floor_bytes = 32 * 2 ^ 20

-- The points that are samples.
unfoldable pub samples : List MemoryTrendPoint → List MemoryTrendPoint
samples points = keep (λ (p : MemoryTrendPoint). not (p.post_gc_heap_bytes == 0)) points

unfoldable pub post_gc_samples : List MemoryTrendPoint → List ℕ
post_gc_samples points = map (λ (p : MemoryTrendPoint). p.post_gc_heap_bytes) (samples points)

unfoldable pub inuse_samples : List MemoryTrendPoint → List ℕ
inuse_samples points = map (λ (p : MemoryTrendPoint). p.heap_inuse_bytes) (samples points)

unfoldable pub max_from : ℕ → List ℕ → ℕ
max_from m [] = m
max_from m (x ∷ xs) = max_from (if ltb m x then x else m) xs

-- The code takes both of slices that are not empty.
unfoldable pub max_u64 : List ℕ → ℕ
max_u64 [] = 0
max_u64 (x ∷ xs) = max_from x xs

unfoldable pub min_from : ℕ → List ℕ → ℕ
min_from m [] = m
min_from m (x ∷ xs) = min_from (if ltb x m then x else m) xs

unfoldable pub min_u64 : List ℕ → ℕ
min_u64 [] = 0
min_u64 (x ∷ xs) = min_from x xs

-- int64(last) - int64(first) >= leakRiseFloorBytes: the difference wraps, and it is no less than
-- the floor if its word stands from the floor up to 2^63.
unfoldable pub leak_floor_met : ℕ → ℕ → Bool
leak_floor_met first last =
    let rise = sub64 last first in leb leak_rise_floor_bytes rise && ltb rise (2 ^ 63)

-- The second half's low is at or above the first half's high.
unfoldable pub first_half_high : List ℕ → ℕ
first_half_high post_gc = max_u64 (take (length post_gc / 2) post_gc)

unfoldable pub second_half_low : List ℕ → ℕ
second_half_low post_gc = min_u64 (drop (length post_gc / 2) post_gc)

unfoldable pub sustained : List ℕ → Bool
sustained post_gc = leb (first_half_high post_gc) (second_half_low post_gc)
