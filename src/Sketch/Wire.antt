-- ===== src/Sketch/Wire.antt =====
-- The sparse map: keys of positions, and that `FromBuckets` undoes `Buckets`.
use mathlib.Core.List.{append_assoc}
use maping.Base.{
  ℕ, zero, suc, ◌+◌, ◌≤◌, ◌<◌, ◌^◌, ◌≡◌, refl, sym, ap, ◌∙◌, true, false, some, List, [], ◌∷◌, ◌++◌,
  length, get_or, set, replicate, All, arith, ◌==◌, Bool-cases, dec_lt, inl, inr, length-append,
}
use maping.Base.Int.{ℤ, pos, negsuc, ◌+ℤ◌, ◌≤ℤ◌, add_bound, add-ge, add_low, add_high}
use maping.Base.Word.{add64, add64-lt, add64-zero, zero-add64, add64_assoc, u64_mod}
use maping.Float.{Float}
use maping.Sketch.{
  DdSketch, num_buckets, new, bump, to_int32, init, min_index, max_index, add_count, sparse,
  to_buckets, clamp_index, add_entries, from_buckets, domain_size,
}
use maping.Sketch.Counters.{DdSketch_ext, IsWord, sum64, sum64-lt, bump-IsWord, zeros-IsWord}
use maping.Sketch.Domain.{MathLaws, offset-add, domain_fits}
use maping.Sketch.Invariant.{IsValid}

to_int32_exact : (z : ℤ) → pos 0 ≤ℤ z +ℤ pos (2 ^ 31) → z +ℤ pos 1 ≤ℤ pos (2 ^ 31) → to_int32 z ≡ z
unfolding to_int32 ◌+ℤ◌
to_int32_exact (pos n) lo hi = ground arith
to_int32_exact (negsuc n) lo hi = ground arith

clamp_index_id : (fl : Float) (z : ℤ) → min_index fl ≤ℤ z → z ≤ℤ max_index fl → clamp_index fl z ≡ z
unfolding clamp_index
clamp_index_id fl z lo hi = ground arith

-- Raising the counters from position i on, one after the other.
unfoldable pub add_from : ℕ → List ℕ → List ℕ → List ℕ
add_from i xs [] = xs
add_from i xs (b ∷ bs) = add_from (suc i) (bump xs i b) bs

set-append : (ps qs : List ℕ) (b c : ℕ) → set (ps ++ b ∷ qs) (length ps) c ≡ ps ++ c ∷ qs
set-append [] qs b c = refl
set-append (p ∷ ps) qs b c = ap (◌∷◌ p) (set-append ps qs b c)

get_or-append : (ps qs : List ℕ) (b : ℕ) → get_or (ps ++ b ∷ qs) (length ps) 0 ≡ b
get_or-append [] qs b = refl
get_or-append (p ∷ ps) qs b = get_or-append ps qs b

bump_zero : (bs : List ℕ) (i : ℕ) → All IsWord bs → bump bs i 0 ≡ bs
unfolding bump
bump_zero [] i w = refl
bump_zero (b ∷ bs) zero w = rw (add64-zero b w.0)
bump_zero (b ∷ bs) (suc i) w = ap (◌∷◌ b) (bump_zero bs i w.1)

bump_at :
    (ps : List ℕ) (k b : ℕ)
    → b < u64_mod
    → bump (ps ++ replicate (suc k) 0) (length ps) b ≡ ps ++ b ∷ replicate k 0
unfolding bump
bump_at ps k b h =
    rw (get_or-append ps (replicate k 0) 0, zero-add64 b h) (set-append ps (replicate k 0) 0 b)

add_from-zeros :
    (ps bs : List ℕ)
    → All IsWord bs
    → add_from (length ps) (ps ++ replicate (length bs) 0) bs ≡ ps ++ bs
unfolding add_from
add_from-zeros ps [] w = refl
add_from-zeros ps (b ∷ bs) w =
    let e : suc (length ps) ≡ length (ps ++ b ∷ []) = omega (arith, length-append ps (b ∷ [])) in
    let rest = add_from-zeros (ps ++ b ∷ []) bs w.1 in
    rw (bump_at ps (length bs) b w.0, e)
      (ap (λ l. add_from (length (ps ++ b ∷ [])) l bs)
          (sym (append_assoc ps (b ∷ []) (replicate (length bs) 0)))
        ∙ rest
        ∙ append_assoc ps (b ∷ []) bs)

-- A counter that is not zero lies in the domain.
pub used_position : (b i d : ℕ) → (b == 0) ≡ false → (d ≤ i + 0 → b ≡ 0) → i < d
used_position b i d ne outside = elim (dec_lt i d) [
  | yes p ↦ p
  | no q ↦ absurd (let z : b ≡ 0 = outside (omega arith) in ground arith)
]

module _ (fl : Float) where
  -- The key of a position of the array is its absolute index.
  pub key_exact :
      (i : ℕ)
      → MathLaws fl
      → i < num_buckets
      → to_int32 (pos i +ℤ min_index fl) ≡ pos i +ℤ min_index fl
  key_exact i w h =
      to_int32_exact _ (add_low (min_index fl) (pos (2 ^ 31)) i w.low_end)
        (add_high (min_index fl) (pos (2 ^ 31)) num_buckets i h w.high_end)

  add_count_at :
      (s : DdSketch) (i c : ℕ)
      → MathLaws fl
      → init fl ≡ true
      → i < domain_size fl
      → add_count fl s (clamp_index fl (to_int32 (pos i +ℤ min_index fl))) c
        ≡ some (record { buckets = bump s.buckets i c; count = add64 s.count c })
  unfolding add_count
  add_count_at s i c w h lt =
      let fits : i < num_buckets = omega (arith, domain_fits fl h) in
      let hi : pos i +ℤ min_index fl ≤ℤ max_index fl = unfold domain_size in add_bound _ _ i lt in
      rw (
        key_exact i w fits,
        clamp_index_id fl _ (add-ge (min_index fl) i) hi,
        offset-add fl i fits,
        add_count,
      )

  -- Adding the entries of the counters from position i on.
  add_entries-sparse :
      (s : DdSketch) (i : ℕ) (bs : List ℕ)
      → MathLaws fl
      → init fl ≡ true
      → All IsWord s.buckets
      → s.count < u64_mod
      → ((j : ℕ) → domain_size fl ≤ i + j → get_or bs j 0 ≡ 0)
      → add_entries fl s (sparse fl i bs)
        ≡ some (record { buckets = add_from i s.buckets bs; count = add64 s.count (sum64 bs) })
  unfolding add_entries sparse add_from sum64
  add_entries-sparse s i [] w h words lt inside =
      ap (λ k. some (record { buckets = s.buckets; count = k })) (sym (add64-zero s.count lt))
  add_entries-sparse s i (b ∷ bs) w h words lt inside = elim (Bool-cases (b == 0)) [
    | inl e ↦
        let z : b ≡ 0 = ground arith in
        rw e (
          add_entries-sparse s (suc i) bs w h words lt (λ j le. inside (suc j) (omega arith))
          ∙ rw z (cc (bump_zero s.buckets i words, zero-add64 (sum64 bs) (sum64-lt bs))))
    | inr ne ↦
        let used : i < domain_size fl = used_position b i (domain_size fl) ne (inside 0) in
        rw (ne, add_entries, add_count_at s i b w h used)
          (add_entries-sparse (record { buckets = bump s.buckets i b; count = add64 s.count b })
              (suc i) bs w h (bump-IsWord s.buckets i b words) (add64-lt s.count b)
              (λ j le. inside (suc j) (omega arith))
            ∙ cc (add64_assoc s.count b (sum64 bs)))
  ]

  add_from_all :
      (s : DdSketch) → IsValid fl s → add_from 0 (replicate num_buckets 0) s.buckets ≡ s.buckets
  add_from_all s v = rw (← v.sized) (add_from-zeros [] s.buckets v.words)

  -- `FromBuckets` undoes `Buckets` on every valid sketch: the wire map rebuilds the same counters
  -- and the same count, and no index is out of range.
  pub from_buckets-to_buckets :
      (w : MathLaws fl) (s : DdSketch)
      → init fl ≡ true
      → IsValid fl s
      → from_buckets fl (to_buckets fl s) ≡ some s
  unfolding from_buckets to_buckets new
  from_buckets-to_buckets w s h v =
      add_entries-sparse new 0 s.buckets w h (zeros-IsWord num_buckets) (omega arith)
        (λ j le. v.inside j (omega arith))
      ∙ ap some
          (DdSketch_ext _ _ (add_from_all s v) (zero-add64 _ (sum64-lt s.buckets) ∙ sym v.counted))
