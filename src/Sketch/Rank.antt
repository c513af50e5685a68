-- ===== src/Sketch/Rank.antt =====
-- The bucket that `Quantile` finds.
use maping.Base.{
  ℕ, suc, ◌+◌, ◌≤◌, ◌<◌, ◌≡◌, refl, ap, ◌∙◌, false, List, [], ◌∷◌, get_or, take, arith, leb, ◌==◌,
  Bool-cases, dec_lt, inl, inr, leb→le,
}
use maping.Base.Int.{pos, ◌+ℤ◌}
use maping.Base.Word.{add64, add64_exact, u64_mod}
use maping.Float.{Float}
use maping.Sketch.{DdSketch, value, min_index, quantile_rank, walk, quantile, domain_size, int_key}
use maping.Sketch.Counters.{sum64}
use maping.Sketch.Invariant.{IsValid}

-- The sum without wrap-around.
abbrev pub sum : List ℕ → ℕ
sum [] = 0
sum (b ∷ bs) = b + sum bs

sum64_exact : (bs : List ℕ) → sum bs < u64_mod → sum64 bs ≡ sum bs
unfolding sum64
sum64_exact [] h = refl
sum64_exact (b ∷ bs) h = ap (add64 b) (sum64_exact bs (omega arith)) ∙ add64_exact b (sum bs) h

module _ (fl : Float) where
  pub quantile_rank_bounds :
      (q : fl.F) (t : ℕ) → 0 < t → (1 ≤ quantile_rank fl q t) × (quantile_rank fl q t ≤ t)
  unfolding quantile_rank
  quantile_rank_bounds q t h = omega arith

  -- The walk stops at the first position where the running sum reaches the rank.
  walk_lem :
      (rank : ℕ) (bs : List ℕ) (i cum : ℕ)
      → cum < rank
      → rank ≤ cum + sum bs
      → cum + sum bs < u64_mod
      → (j : ℕ) × (walk fl rank bs i cum ≡ value fl (pos (i + j) +ℤ min_index fl))
        × (cum + sum (take j bs) < rank)
        × (rank ≤ cum + sum (take j bs) + get_or bs j 0)
  unfolding walk
  walk_lem rank [] i cum below reach fits = absurd (omega arith)
  walk_lem rank (b ∷ bs) i cum below reach fits = elim (Bool-cases (leb rank (add64 cum b))) [
    | inl e ↦
        let x = add64_exact cum b (omega arith) in
        (
          0,
          rw e (ap (λ k. value fl (pos k +ℤ min_index fl)) (omega arith)),
          omega arith,
          omega (arith, leb→le rank (add64 cum b) e),
        )
    | inr e ↦
        let x = add64_exact cum b (omega arith) in
        let lt : add64 cum b < rank = ground arith in
        let (j, p, q, r) = walk_lem rank bs (suc i) (add64 cum b) lt (omega arith) (omega arith) in
        (
          suc j,
          rw e (p ∙ ap (λ k. value fl (pos k +ℤ min_index fl)) (omega arith)),
          omega arith,
          omega arith,
        )
  ]

  -- On a valid non-empty sketch whose counters do not add up to 2^64, `Quantile` returns the value
  -- of a bucket of the domain, the least one whose cumulative count reaches the rank: the counters
  -- before it stay below the rank, and with its own they reach it. The rank lies between 1 and
  -- the count.
  pub quantile_lem :
      (s : DdSketch) (q : fl.F)
      → IsValid fl s
      → sum s.buckets < u64_mod
      → 0 < s.count
      → (j : ℕ) × (quantile fl s q ≡ value fl (pos j +ℤ min_index fl))
        × (j < domain_size fl)
        × (sum (take j s.buckets) < quantile_rank fl q s.count)
        × (quantile_rank fl q s.count ≤ sum (take j s.buckets) + get_or s.buckets j 0)
        × (1 ≤ quantile_rank fl q s.count)
        × (quantile_rank fl q s.count ≤ s.count)
  unfolding quantile
  quantile_lem s q v fits some_seen =
      let (one, cap') = quantile_rank_bounds q s.count some_seen in
      let counted : s.count ≡ sum s.buckets = v.counted ∙ sum64_exact s.buckets fits in
      let (j, e, below, reach) =
        walk_lem (quantile_rank fl q s.count) s.buckets 0 0 (omega arith) (omega arith)
          (omega arith) in
      let filled : s.count == 0 ≡ false = ground arith in
      (
        j,
        rw filled (e ∙ ap (λ k. value fl (pos k +ℤ min_index fl)) (omega arith)),
        in_domain j below reach,
        omega arith,
        omega arith,
        one,
        cap',
      )
    where
      in_domain :
          (j : ℕ)
          → 0 + sum (take j s.buckets) < quantile_rank fl q s.count
          → quantile_rank fl q s.count ≤ 0 + sum (take j s.buckets) + get_or s.buckets j 0
          → j < domain_size fl
      in_domain j below reach = elim (dec_lt j (domain_size fl)) [
        | yes p ↦ p
        | no n ↦ absurd (let z = v.inside j (omega arith) in omega arith)
      ]
