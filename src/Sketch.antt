-- ===== src/Sketch.antt =====
-- client/sketch/ddsketch.go: the latency sketch. The array of counters is a list of `num_buckets`
-- words; an index out of its range is a run-time panic in Go, here the result `none`.
pub mod Counters
pub mod Domain
pub mod Invariant
pub mod Merge
pub mod Wire
pub mod Rank
pub mod Agreement
pub mod Whole
mod Tests
use maping.Base.{
  ℕ, zero, suc, ◌+◌, ◌-◌, ◌%◌, ◌^◌, min, max, Bool, true, false, ◌||◌, Option, none, some, List, [],
  ◌∷◌, length, get_or, set, replicate, ltb, leb, ◌==◌, if◌then◌else◌,
}
use maping.Base.Int.{ℤ, ℤ_discrete, pos, negsuc, pos_part, ltb_ℤ, ◌+ℤ◌, ◌-ℤ◌}
use maping.Base.Word.{add64}
use maping.Base.Assoc.{Map, Key, lookup}
use maping.Float.{Float}

pub num_buckets : ℕ
num_buckets = 2048

pub record DdSketch : Type 0 where
  pub buckets : List ℕ
  pub count : ℕ

unfoldable pub new : DdSketch
new = record { buckets = replicate num_buckets 0; count = 0 }

-- buckets[i] += c
unfoldable pub bump : List ℕ → ℕ → ℕ → List ℕ
bump bs i c = set bs i (add64 (get_or bs i 0) c)

-- The conversion int32(z).
unfoldable pub to_int32 : ℤ → ℤ
to_int32 (pos n) = let m = n % 2 ^ 32 in if ltb m (2 ^ 31) then pos m else negsuc (2 ^ 32 - 1 - m)
to_int32 (negsuc n) =
    let m = n % 2 ^ 32 in if ltb m (2 ^ 31) then negsuc m else pos (2 ^ 32 - 1 - m)

-- The body of the loop of `Merge`, over both arrays at once.
unfoldable pub add_buckets : List ℕ → List ℕ → List ℕ
add_buckets [] os = []
add_buckets (b ∷ bs) [] = b ∷ bs
add_buckets (b ∷ bs) (o ∷ os) = add64 b o ∷ add_buckets bs os

unfoldable pub merge : DdSketch → DdSketch → DdSketch
merge s o = record { buckets = add_buckets s.buckets o.buckets; count = add64 s.count o.count }

-- The keys of the sparse map are absolute bucket indices, int32 on the wire.
instance abbrev pub int_key : Key ℤ
int_key = record { dec = ℤ_discrete }

module _ (fl : Float) where
  open fl use {F, lit, is_nan, lt, add, mul, div, log, ceil, pow, of_ℕ, of_ℤ, to_int, to_uint64}

  unfoldable pub gamma : F
  gamma = lit 101 100

  unfoldable pub min_value : F
  min_value = lit 1 1000000

  unfoldable pub max_value : F
  max_value = lit 60 1

  unfoldable pub log_gamma : F
  log_gamma = log gamma

  unfoldable pub index : F → ℤ
  index v = to_int (ceil (div (log v) log_gamma))

  unfoldable pub value : ℤ → F
  value i = div (mul (lit 2 1) (pow gamma (of_ℤ i))) (add gamma (lit 1 1))

  unfoldable pub min_index : ℤ
  min_index = index min_value

  unfoldable pub max_index : ℤ
  max_index = index max_value

  -- `false` is the panic of `init`.
  unfoldable pub init : Bool
  init = if ltb_ℤ (pos num_buckets) (max_index -ℤ min_index +ℤ pos 1) then false else true

  unfoldable pub clamp : F → F
  clamp seconds =
      if is_nan seconds || lt seconds min_value
      then min_value
      else if lt max_value seconds
      then max_value
      else seconds

  -- The position of an absolute index in the array.
  unfoldable pub offset : ℤ → Option ℕ
  offset i = elim (i -ℤ min_index) [
    | pos n ↦ if ltb n num_buckets then some n else none
    | negsuc n ↦ none
  ]

  unfoldable pub add_count : DdSketch → ℤ → ℕ → Option DdSketch
  add_count s i c = elim (offset i) [
    | none ↦ none
    | some n ↦ some (record { buckets = bump s.buckets n c; count = add64 s.count c })
  ]

  unfoldable pub observe : DdSketch → F → Option DdSketch
  observe s seconds = add_count s (index (clamp seconds)) 1

  unfoldable pub quantile_rank : F → ℕ → ℕ
  quantile_rank q total =
      let q' = if lt q (lit 0 1) then lit 0 1 else if lt (lit 1 1) q then lit 1 1 else q in
      min (max (to_uint64 (ceil (mul q' (of_ℕ total)))) 1) total

  -- The loop of `Quantile` from position i on, with the sum of the counters before it.
  unfoldable pub walk : ℕ → List ℕ → ℕ → ℕ → F
  walk rank [] i cum = value max_index
  walk rank (b ∷ bs) i cum =
      let rest = walk rank bs (suc i) (add64 cum b) in
      if leb rank (add64 cum b) then value (pos i +ℤ min_index) else rest

  unfoldable pub quantile : DdSketch → F → F
  quantile s q = if s.count == 0 then lit 0 1 else walk (quantile_rank q s.count) s.buckets 0 0

  -- The loop of `Buckets` from position i on.
  unfoldable pub sparse : ℕ → List ℕ → Map ℤ ℕ
  sparse i [] = []
  sparse i (b ∷ bs) =
      let rest = sparse (suc i) bs in
      if b == 0 then rest else (to_int32 (pos i +ℤ min_index), b) ∷ rest

  unfoldable pub to_buckets : DdSketch → Map ℤ ℕ
  to_buckets s = sparse 0 s.buckets

  unfoldable pub clamp_index : ℤ → ℤ
  clamp_index i =
      if ltb_ℤ i min_index then min_index else if ltb_ℤ max_index i then max_index else i

  -- The loop of `FromBuckets`; the list gives the order in which Go ranges over the map.
  unfoldable pub add_entries : DdSketch → Map ℤ ℕ → Option DdSketch
  add_entries s [] = some s
  add_entries s ((i, c) ∷ m) = elim (add_count s (clamp_index i) c) [
    | none ↦ none
    | some t ↦ add_entries t m
  ]

  unfoldable pub from_buckets : Map ℤ ℕ → Option DdSketch
  from_buckets m = add_entries new m

  unfoldable pub total : Map ℤ ℕ → ℕ → ℕ
  total [] acc = acc
  total ((i, c) ∷ m) acc = total m (add64 acc c)

  -- The loop of `QuantileFromBuckets`, with the rounds that are left.
  unfoldable pub scan : Map ℤ ℕ → ℕ → ℕ → ℤ → ℕ → F
  scan m rank zero i cum = value max_index
  scan m rank (suc rounds) i cum = elim (lookup (to_int32 i) m) [
    | none ↦ scan m rank rounds (i +ℤ pos 1) cum
    | some c ↦
        let rest = scan m rank rounds (i +ℤ pos 1) (add64 cum c) in
        if leb rank (add64 cum c) then value i else rest
  ]

  -- The rounds of `for i := minIndex; i <= maxIndex; i++`.
  unfoldable pub domain_size : ℕ
  domain_size = pos_part (max_index -ℤ min_index +ℤ pos 1)

  unfoldable pub quantile_from_buckets : Map ℤ ℕ → F → F
  quantile_from_buckets m q =
      let t = total m 0 in
      if t == 0 then lit 0 1 else scan m (quantile_rank q t) domain_size min_index 0
