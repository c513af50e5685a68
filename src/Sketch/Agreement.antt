-- ===== src/Sketch/Agreement.antt =====
-- The percentile of the wire map, `QuantileFromBuckets`, against `Quantile`.
use maping.Base.{
  ℕ, zero, suc, ◌+◌, ◌≤◌, ◌<◌, ◌≡◌, refl, sym, ap, ◌∙◌, ◌≢◌, true, false, none, some, List, [], ◌∷◌,
  length, get_or, arith, leb, ◌==◌, if◌then◌else◌, Bool-cases, inl, inr, ==_iff,
}
use maping.Base.Int.{ℤ, pos, ◌+ℤ◌, zero_add, add_suc, add_injective}
use maping.Base.Word.{add64, add64-lt, add64-zero, zero-add64, add64_assoc, u64_mod}
use maping.Base.Assoc.{Map, lookup}
use maping.Float.{Float}
use maping.Sketch.{
  DdSketch, num_buckets, to_int32, init, value, min_index, max_index, quantile_rank, walk, quantile,
  sparse, to_buckets, total, scan, quantile_from_buckets, domain_size, int_key,
}
use maping.Sketch.Counters.{sum64, sum64-lt}
use maping.Sketch.Domain.{MathLaws, domain_fits}
use maping.Sketch.Invariant.{IsValid}
use maping.Sketch.Wire.{key_exact}
use maping.Sketch.Rank.{quantile_rank_bounds as rank_bounds}

module _ (fl : Float) where
  -- The total of the wire map is the sum of the counters.
  total-sparse :
      (i : ℕ) (bs : List ℕ) (acc : ℕ)
      → acc < u64_mod
      → total fl (sparse fl i bs) acc ≡ add64 acc (sum64 bs)
  unfolding total sparse sum64
  total-sparse i [] acc h = sym (add64-zero acc h)
  total-sparse i (b ∷ bs) acc h = elim (Bool-cases (b == 0)) [
    | inl e ↦
        let z : b ≡ 0 = ground arith in
        rw e (total-sparse (suc i) bs acc h ∙ rw z (rw (zero-add64 (sum64 bs) (sum64-lt bs))))
    | inr e ↦
        rw e (total-sparse (suc i) bs (add64 acc b) (add64-lt acc b) ∙ add64_assoc acc b (sum64 bs))
  ]

  abbrev key : ℕ → ℤ
  key i = to_int32 (pos i +ℤ min_index fl)

  key_injective :
      (w : MathLaws fl) (i j : ℕ) → i < num_buckets → j < num_buckets → key i ≡ key j → i ≡ j
  key_injective w i j hi hj e =
      add_injective i j (min_index fl) (sym (key_exact fl i w hi) ∙ e ∙ key_exact fl j w hj)

  -- A position before the first is in no sparse map.
  lookup-sparse_before :
      (w : MathLaws fl) (k i : ℕ) (bs : List ℕ)
      → k < i
      → i + length bs ≤ num_buckets
      → lookup (key k) (sparse fl i bs) ≡ none
  unfolding lookup sparse
  lookup-sparse_before w k i [] h fits = refl
  lookup-sparse_before w k i (b ∷ bs) h fits =
      let ne : key i ≢ key k =
        λ e. absurd (let z = key_injective w i k (omega arith) (omega arith) e in omega arith) in
      ground (arith, lookup-sparse_before w k (suc i) bs (omega arith) (omega arith))

  -- The wire map holds the counters that are not zero.
  lookup-sparse :
      (w : MathLaws fl) (i j k : ℕ) (bs : List ℕ)
      → k ≡ i + j
      → j < length bs
      → i + length bs ≤ num_buckets
      → lookup (key k) (sparse fl i bs)
        ≡ (if get_or bs j 0 == 0 then none else some (get_or bs j 0))
  unfolding lookup sparse
  lookup-sparse w i j k [] at h fits = absurd (omega arith)
  lookup-sparse w i zero k (b ∷ bs) at h fits =
      let e : k ≡ i = omega arith in
      rw e (ground (arith, lookup-sparse_before w i (suc i) bs (omega arith) (omega arith)))
  lookup-sparse w i (suc j) k (b ∷ bs) at h fits =
      let ne : key i ≢ key k =
        λ e. absurd (let z = key_injective w i k (omega arith) (omega arith) e in omega arith) in
      ground (arith, lookup-sparse w (suc i) j k bs (omega arith) (omega arith) (omega arith))

  walk-zeros :
      (rank : ℕ) (bs : List ℕ) (i cum : ℕ)
      → ((j : ℕ) → get_or bs j 0 ≡ 0)
      → cum < rank
      → cum < u64_mod
      → walk fl rank bs i cum ≡ value fl (max_index fl)
  unfolding walk
  walk-zeros rank [] i cum z h w = refl
  walk-zeros rank (b ∷ bs) i cum z h w =
      let same : add64 cum b ≡ cum = rw (z 0) (add64-zero cum w) in
      let more : leb rank cum ≡ false = ground arith in
      rw (same, more) (walk-zeros rank bs (suc i) cum (λ j. z (suc j)) h w)

  scan_absent :
      (m : Map ℤ ℕ) (rank rounds i cum : ℕ)
      → lookup (key i) m ≡ none
      → scan fl m rank (suc rounds) (pos i +ℤ min_index fl) cum
        ≡ scan fl m rank rounds (pos (suc i) +ℤ min_index fl) cum
  unfolding scan
  scan_absent m rank rounds i cum e =
      rw (e, scan) (ap (λ z. scan fl m rank rounds z cum) (add_suc i (min_index fl)))

  scan_present :
      (m : Map ℤ ℕ) (rank rounds i cum c : ℕ)
      → lookup (key i) m ≡ some c
      → scan fl m rank (suc rounds) (pos i +ℤ min_index fl) cum ≡ (
          if leb rank (add64 cum c)
          then value fl (pos i +ℤ min_index fl)
          else scan fl m rank rounds (pos (suc i) +ℤ min_index fl) (add64 cum c))
  unfolding scan
  scan_present m rank rounds i cum c e =
      rw (e, scan)
        (ap
          (λ z.
            if leb rank (add64 cum c)
            then value fl (pos i +ℤ min_index fl)
            else scan fl m rank rounds z (add64 cum c))
          (add_suc i (min_index fl)))

  walk_step :
      (rank b : ℕ) (bs : List ℕ) (i cum : ℕ)
      → walk fl rank (b ∷ bs) i cum ≡ (
          if leb rank (add64 cum b)
          then value fl (pos i +ℤ min_index fl)
          else walk fl rank bs (suc i) (add64 cum b))
  unfolding walk
  walk_step rank b bs i cum = refl

  -- The walk over the array and the scan of its wire map stop at the same bucket.
  walk-scan :
      (w : MathLaws fl) (s : DdSketch) (rank i : ℕ) (bs : List ℕ) (rounds cum : ℕ)
      → init fl ≡ true
      → IsValid fl s
      → ((j : ℕ) → get_or bs j 0 ≡ get_or s.buckets (i + j) 0)
      → i + length bs ≡ num_buckets
      → i + rounds ≡ domain_size fl
      → cum < rank
      → cum < u64_mod
      → walk fl rank bs i cum
        ≡ scan fl (sparse fl 0 s.buckets) rank rounds (pos i +ℤ min_index fl) cum
  walk-scan w s rank i bs zero cum h v part full at below word =
      unfold scan in
      walk-zeros rank bs i cum (λ j. part j ∙ v.inside (i + j) (omega arith)) below word
  walk-scan w s rank i [] (suc rounds) cum h v part full at below word =
      absurd (omega (arith, domain_fits fl h))
  walk-scan w s rank i (b ∷ bs) (suc rounds) cum h v part full at below word =
      let here : b ≡ get_or s.buckets i 0 = part 0 ∙ ap (λ k. get_or s.buckets k 0) (omega arith) in
      let found =
        lookup-sparse w 0 i i s.buckets (omega arith) (omega (arith, v.sized))
          (omega (arith, v.sized)) in
      let tail : (j : ℕ) → get_or bs j 0 ≡ get_or s.buckets (suc i + j) 0 =
        λ j. part (suc j) ∙ ap (λ k. get_or s.buckets k 0) (omega arith) in
      let next = λ (c : ℕ) (p : c < rank) (q : c < u64_mod).
        walk-scan w s rank (suc i) bs rounds c h v tail (omega arith) (omega arith) p q in
      elim (Bool-cases (b == 0)) [
        | inl e ↦
            let zero_here : b ≡ 0 = (==_iff b 0).0 e in
            let same : add64 cum b ≡ cum = rw zero_here (add64-zero cum word) in
            let more : leb rank cum ≡ false = ground arith in
            let gone : lookup (key i) (sparse fl 0 s.buckets) ≡ none =
              found ∙ rw (← here, e) refl in
            rw (walk_step, same, more)
              (next cum below word
                ∙ sym (scan_absent (sparse fl 0 s.buckets) rank rounds i cum gone))
        | inr e ↦
            let there : lookup (key i) (sparse fl 0 s.buckets) ≡ some b =
              found ∙ rw (← here, e) refl in
            rw (walk_step, scan_present (sparse fl 0 s.buckets) rank rounds i cum b there)
              (elim (Bool-cases (leb rank (add64 cum b))) [
                | inl stop ↦ rw stop refl
                | inr more ↦ rw more (next (add64 cum b) (ground arith) (add64-lt cum b))
              ])
      ]

  -- On every valid sketch the percentile read from the wire map is the one read from the sketch,
  -- for every quantile q, also where the counters wrap.
  pub quantile_from_buckets-to_buckets :
      (w : MathLaws fl) (s : DdSketch) (q : fl.F)
      → init fl ≡ true
      → IsValid fl s
      → quantile_from_buckets fl (to_buckets fl s) q ≡ quantile fl s q
  unfolding quantile_from_buckets quantile to_buckets
  quantile_from_buckets-to_buckets w s q h v =
      let same : total fl (sparse fl 0 s.buckets) 0 ≡ s.count =
        total-sparse 0 s.buckets 0 (omega arith)
        ∙ zero-add64 (sum64 s.buckets) (sum64-lt s.buckets)
        ∙ sym v.counted in
      rw same (elim (Bool-cases (s.count == 0)) [
        | inl e ↦ rw e refl
        | inr e ↦
            let seen : 0 < s.count = ground arith in
            let (one, _) = rank_bounds fl q s.count seen in
            rw e (
              sym (
                walk-scan w s (quantile_rank fl q s.count) 0 s.buckets (domain_size fl) 0 h v
                  (λ j. ap (λ k. get_or s.buckets k 0) (omega arith)) (omega (arith, v.sized))
                  (omega arith) (omega arith) (omega arith)
                ∙ ap
                    (λ z.
                      scan fl (sparse fl 0 s.buckets) (quantile_rank fl q s.count) (domain_size fl)
                        z 0)
                    (zero_add (min_index fl))))
      ])
