-- ===== src/Sketch/Invariant.antt =====
-- The sketch's invariant, and that recording an observation is total and keeps it.
use maping.Base.{
  ℕ, ◌≤◌, ◌<◌, ◌≡◌, refl, ◌≢◌, true, some, length, get_or, All, arith, ◌∙◌, sym, ap,
  length-replicate,
}
use maping.Base.Int.{ℤ, pos, ◌+ℤ◌, ◌≤ℤ◌}
use maping.Base.Word.{add64}
use maping.Float.{Float}
use maping.Sketch.{
  DdSketch, num_buckets, new, bump, clamp, index, init, min_index, max_index, add_count, observe,
  domain_size,
}
use maping.Sketch.Counters.{
  IsWord, sum64, length-bump, sum64-bump, bump_self, bump_ne, bump-IsWord, zeros-IsWord,
  sum64-zeros, get_or-zeros,
}
use maping.Sketch.Domain.{MathLaws, index-clamp, offset_in_domain, domain_fits}

module _ (fl : Float) where
  -- The array has its full length and holds words, nothing lies beyond the domain, and the count
  -- is the sum of the counters.
  pub record IsValid (s : DdSketch) : Type 0 where
    pub sized : length s.buckets ≡ num_buckets
    pub words : All IsWord s.buckets
    pub inside : (i : ℕ) → domain_size fl ≤ i → get_or s.buckets i 0 ≡ 0
    pub counted : s.count ≡ sum64 s.buckets

  pub new-IsValid : IsValid new
  unfolding new
  new-IsValid = record {
    sized = length-replicate num_buckets 0;
    words = zeros-IsWord num_buckets;
    inside = λ i h. get_or-zeros num_buckets i;
    counted = sym (sum64-zeros num_buckets);
  }

  pub bump-IsValid :
      (s : DdSketch) (n c : ℕ)
      → init fl ≡ true
      → n < domain_size fl
      → IsValid s
      → IsValid (record { buckets = bump s.buckets n c; count = add64 s.count c })
  bump-IsValid s n c h lt v =
      let fits : n < length s.buckets = omega (arith, domain_fits fl h, v.sized) in
      record {
        sized = length-bump s.buckets n c ∙ v.sized;
        words = bump-IsWord s.buckets n c v.words;
        inside = λ i le. bump_ne s.buckets n i c (omega arith) ∙ v.inside i le;
        counted = ap (λ k. add64 k c) v.counted ∙ sym (sum64-bump s.buckets n c fits);
      }

  -- Adding a count at an index of the domain.
  pub add_count_lem :
      (s : DdSketch) (i : ℤ) (c : ℕ)
      → init fl ≡ true
      → min_index fl ≤ℤ i
      → i ≤ℤ max_index fl
      → IsValid s
      → (n : ℕ) × (i ≡ pos n +ℤ min_index fl)
        × (n < domain_size fl)
        × (add_count fl s i c
            ≡ some (record { buckets = bump s.buckets n c; count = add64 s.count c }))
        × IsValid (record { buckets = bump s.buckets n c; count = add64 s.count c })
  unfolding add_count
  add_count_lem s i c h lo hi v =
      let (n, e, lt, z) = offset_in_domain fl i h lo hi in
      (n, z, lt, rw (e, add_count) refl, bump-IsValid s n c h lt v)

  -- On a valid sketch `Add` never indexes out of range, whatever the latency is (NaN, negative and
  -- huge values too): it raises by one the counter of the clamped latency's bucket, and the count,
  -- leaves the other counters, and keeps the sketch valid.
  pub observe_total :
      (w : MathLaws fl) (s : DdSketch) (v : fl.F)
      → init fl ≡ true
      → IsValid s
      → (n : ℕ) × (t : DdSketch) × (index fl (clamp fl v) ≡ pos n +ℤ min_index fl)
        × (observe fl s v ≡ some t)
        × IsValid t
        × (t.count ≡ add64 s.count 1)
        × (get_or t.buckets n 0 ≡ add64 (get_or s.buckets n 0) 1)
        × ((j : ℕ) → n ≢ j → get_or t.buckets j 0 ≡ get_or s.buckets j 0)
  unfolding observe
  observe_total w s v h val =
      let (lo, hi) = index-clamp fl w v in
      let (n, z, lt, e, val') = add_count_lem s (index fl (clamp fl v)) 1 h lo hi val in
      let fits : n < length s.buckets = omega (arith, domain_fits fl h, val.sized) in
      (
        n,
        record { buckets = bump s.buckets n 1; count = add64 s.count 1 },
        z,
        e,
        val',
        refl,
        bump_self s.buckets n 1 fits,
        λ j ne. bump_ne s.buckets n j 1 ne,
      )
