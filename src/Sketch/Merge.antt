-- ===== src/Sketch/Merge.antt =====
-- `Merge` is exact: it is feeding all observations to one sketch, commutative and associative.
use maping.Base.{
  ℕ, ◌≡◌, refl, sym, ap, ◌∙◌, true, Option, none, some, ◌≢◌, inl, inr, Option-cases, List, [], ◌∷◌,
  ◌++◌, length, arith,
}
use maping.Base.Int.{ℤ}
use maping.Base.Word.{add64, add64_comm, add64_assoc, add64-zero}
use maping.Float.{Float}
use maping.Sketch.{
  DdSketch, num_buckets, new, bump, merge, index, clamp, init, offset, add_count, observe,
}
use maping.Sketch.Counters.{
  DdSketch_ext, sum64-lt, add_buckets-bump, add_buckets-zeros, add_buckets_comm, add_buckets_assoc,
  length-add_buckets, add_buckets-IsWord, sum64-add_buckets, get_or-add_buckets,
}
use maping.Sketch.Domain.{MathLaws, index-clamp, offset-add, domain_fits}
use maping.Sketch.Invariant.{IsValid, new-IsValid, add_count_lem}

-- Every latency of a list, in order.
unfoldable pub feed : (fl : Float) → DdSketch → List fl.F → Option DdSketch
feed fl s [] = some s
feed fl s (v ∷ vs) = elim (observe fl s v) [ none ↦ none | some t ↦ feed fl t vs ]

none-ne-some : (t : DdSketch) → none ≢ some t
none-ne-some t e = cc e

module _ (fl : Float) where
  pub merge-IsValid : (s t : DdSketch) → IsValid fl s → IsValid fl t → IsValid fl (merge s t)
  unfolding merge
  merge-IsValid s t v w =
      let same : length s.buckets ≡ length t.buckets = omega (arith, v.sized, w.sized) in
      record {
        sized = length-add_buckets s.buckets t.buckets ∙ v.sized;
        words = add_buckets-IsWord s.buckets t.buckets v.words;
        inside = λ i h.
            get_or-add_buckets s.buckets t.buckets i same
            ∙ cc (v.inside i h, w.inside i h, zero_sum);
        counted = cc (v.counted, w.counted, sum64-add_buckets s.buckets t.buckets same);
      }
    where
      zero_sum : add64 0 0 ≡ 0
      zero_sum = add64-zero 0 (omega arith)

  merge-new : (s : DdSketch) → IsValid fl s → merge s new ≡ s
  unfolding merge new
  merge-new s v =
      DdSketch_ext _ _ (add_buckets-zeros s.buckets num_buckets v.words)
        (add64-zero s.count (rw v.counted (sum64-lt s.buckets)))

  -- One more observation on the right is one more on the whole.
  add_count-merge :
      (s t : DdSketch) (i : ℤ) (n c : ℕ)
      → IsValid fl s
      → IsValid fl t
      → offset fl i ≡ some n
      → add_count fl (merge s t) i c
        ≡ some (merge s (record { buckets = bump t.buckets n c; count = add64 t.count c }))
  unfolding add_count merge
  add_count-merge s t i n c v w at =
      let same : length s.buckets ≡ length t.buckets = omega (arith, v.sized, w.sized) in
      rw (at, add_count)
        (ap some (
          DdSketch_ext _ _ (sym (add_buckets-bump s.buckets t.buckets n c same))
            (add64_assoc s.count t.count c)))

  feed-merge :
      (w : MathLaws fl) (s t : DdSketch) (vs : List fl.F)
      → init fl ≡ true
      → IsValid fl s
      → IsValid fl t
      → (u : DdSketch) × (feed fl t vs ≡ some u)
        × (feed fl (merge s t) vs ≡ some (merge s u))
        × IsValid fl u
  unfolding feed observe
  feed-merge w s t [] h v v' = (t, refl, refl, v')
  feed-merge w s t (x ∷ xs) h v v' =
      let (lo, hi) = index-clamp fl w x in
      let (n, z, lt, e, next) = add_count_lem fl t (index fl (clamp fl x)) 1 h lo hi v' in
      let t' : DdSketch = record { buckets = bump t.buckets n 1; count = add64 t.count 1 } in
      let (u, p, q, val) = feed-merge w s t' xs h v next in
      let at : offset fl (index fl (clamp fl x)) ≡ some n =
        rw z (offset-add fl n (omega (arith, domain_fits fl h))) in
      (u, rw (e, feed) p, rw (add_count-merge s t (index fl (clamp fl x)) n 1 v v' at, feed) q, val)

  -- Feeding is total on a valid sketch.
  feed-append :
      (s t : DdSketch) (xs ys : List fl.F)
      → feed fl s xs ≡ some t
      → feed fl s (xs ++ ys) ≡ feed fl t ys
  unfolding feed
  feed-append s t [] ys e = ground arith
  feed-append s t (x ∷ xs) ys e = elim (Option-cases (observe fl s x)) [
    | inl bad ↦ absurd (none-ne-some t (rw (bad, feed) at e))
    | inr (u, good) ↦ rw (good, feed) (feed-append u t xs ys (rw (good, feed) at e))
  ]

  -- `Merge` is exact: the sketches of two streams of latencies exist, and merged they are the
  -- sketch of one stream after the other, equal in every counter and in the count. The result is
  -- valid. (Counters are words and wrap alike on both sides.)
  pub merge-feed :
      (w : MathLaws fl) (xs ys : List fl.F)
      → init fl ≡ true
      → (s : DdSketch) × (t : DdSketch) × (feed fl new xs ≡ some s)
        × (feed fl new ys ≡ some t)
        × (feed fl new (xs ++ ys) ≡ some (merge s t))
        × IsValid fl (merge s t)
  merge-feed w xs ys h =
      let v0 = new-IsValid fl in
      let (s, p, _, v) = feed-merge w new new xs h v0 v0 in
      let (t, q, r, v') = feed-merge w s new ys h v v0 in
      (
        s,
        t,
        p,
        q,
        feed-append new s xs ys p ∙ ap (λ k. feed fl k ys) (sym (merge-new s v)) ∙ r,
        merge-IsValid s t v v',
      )

  -- On valid sketches `Merge` is commutative and associative, in every counter and in the count.
  pub merge_laws :
      (s t u : DdSketch)
      → IsValid fl s
      → IsValid fl t
      → IsValid fl u
      → (merge s t ≡ merge t s) × (merge (merge s t) u ≡ merge s (merge t u))
  unfolding merge
  merge_laws s t u v w x =
      let same : length s.buckets ≡ length t.buckets = omega (arith, v.sized, w.sized) in
      (
        DdSketch_ext _ _ (add_buckets_comm s.buckets t.buckets same) (add64_comm s.count t.count),
        DdSketch_ext _ _ (add_buckets_assoc s.buckets t.buckets u.buckets same)
            (add64_assoc s.count t.count u.count),
      )
