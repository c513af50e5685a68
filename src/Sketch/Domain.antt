-- ===== src/Sketch/Domain.antt =====
-- Where a latency lands: what the sketch relies on of float64 and math, and the bounds of the
-- array position that follow.
use maping.Base.{ℕ, ◌≤◌, ◌<◌, ◌^◌, ◌≡◌, true, some, arith, lt→ltb}
use maping.Base.Int.{
  ℤ, pos, pos_part, ◌+ℤ◌, ◌-ℤ◌, ◌≤ℤ◌, sub_of_le, sub-add_cancel, add-sub_cancel, sub_mono,
}
use maping.Float.{Float, Le}
use maping.Sketch.{
  num_buckets, min_value, max_value, log_gamma, index, min_index, max_index, init, clamp, offset,
  clamp_index, domain_size,
}

-- Documented behaviour of float64 and of math.Log, math.Ceil and int(f) on the latency domain,
-- for the constants of the file: comparison is irreflexive, the constants are numbers in order,
-- the functions are monotone where they are used, and the two ends of the domain fit an int.
pub record MathLaws (fl : Float) : Type 0 where
  pub min_max : Le fl (min_value fl) (max_value fl)
  pub min_refl : Le fl (min_value fl) (min_value fl)
  pub max_refl : Le fl (max_value fl) (max_value fl)
  pub log_mono : (a b : fl.F) → Le fl (min_value fl) a → Le fl a b → Le fl (fl.log a) (fl.log b)
  pub div_mono :
      (a b : fl.F) → Le fl a b → Le fl (fl.div a (log_gamma fl)) (fl.div b (log_gamma fl))
  pub ceil_mono : (a b : fl.F) → Le fl a b → Le fl (fl.ceil a) (fl.ceil b)
  pub to_int_mono :
      (a b c : fl.F)
      → fl.fits_int a ≡ true
      → fl.fits_int c ≡ true
      → Le fl a b
      → Le fl b c
      → (fl.to_int a ≤ℤ fl.to_int b) × (fl.to_int b ≤ℤ fl.to_int c)
  pub min_fits : fl.fits_int (fl.ceil (fl.div (fl.log (min_value fl)) (log_gamma fl))) ≡ true
  pub max_fits : fl.fits_int (fl.ceil (fl.div (fl.log (max_value fl)) (log_gamma fl))) ≡ true
  -- The bucket indices of the domain are int32 values, with room for the whole array.
  pub low_end : pos 0 ≤ℤ min_index fl +ℤ pos (2 ^ 31)
  pub high_end : min_index fl +ℤ pos num_buckets ≤ℤ pos (2 ^ 31)

module _ (fl : Float) where
  -- Any latency is clamped into the domain, no NaN among them.
  pub clamp_bounds :
      (w : MathLaws fl) (v : fl.F)
      → Le fl (min_value fl) (clamp fl v) × Le fl (clamp fl v) (max_value fl)
  unfolding clamp
  clamp_bounds w v = ground (arith, w.min_max, w.min_refl, w.max_refl)

  pub index-clamp :
      (w : MathLaws fl) (v : fl.F)
      → (min_index fl ≤ℤ index fl (clamp fl v)) × (index fl (clamp fl v) ≤ℤ max_index fl)
  unfolding min_index max_index index
  index-clamp w v =
      let (lo, hi) = clamp_bounds w v in
      let up = λ (a b : fl.F) (p : Le fl (min_value fl) a) (q : Le fl a b).
        w.ceil_mono _ _ (w.div_mono _ _ (w.log_mono a b p q)) in
      w.to_int_mono _ _ _ w.min_fits w.max_fits (up _ _ w.min_refl lo) (up _ _ lo hi)

  pub clamp_index_bounds :
      (i : ℤ)
      → min_index fl ≤ℤ max_index fl
      → (min_index fl ≤ℤ clamp_index fl i) × (clamp_index fl i ≤ℤ max_index fl)
  unfolding clamp_index
  clamp_index_bounds i h = ground arith

  pub min-le-max : MathLaws fl → min_index fl ≤ℤ max_index fl
  min-le-max w = let (lo, hi) = index-clamp w (min_value fl) in omega arith

  -- What the assertion of `init` gives.
  pub domain_fits : init fl ≡ true → domain_size fl ≤ num_buckets
  unfolding init domain_size
  domain_fits h = ground arith

  offset_of_sub :
      (i : ℤ) (n : ℕ) → i -ℤ min_index fl ≡ pos n → n < num_buckets → offset fl i ≡ some n
  unfolding offset
  offset_of_sub i n e h = rw (e, offset) (rw (lt→ltb n num_buckets h))

  -- An absolute index of the domain has a position in the array, below the domain's size.
  pub offset_in_domain :
      (i : ℤ)
      → init fl ≡ true
      → min_index fl ≤ℤ i
      → i ≤ℤ max_index fl
      → (n : ℕ) × (offset fl i ≡ some n) × (n < domain_size fl) × (i ≡ pos n +ℤ min_index fl)
  unfolding domain_size
  offset_in_domain i h lo hi =
      let below = sub_mono (max_index fl) (min_index fl) i lo hi in
      (
        pos_part (i -ℤ min_index fl),
        offset_of_sub i _ (sub_of_le i (min_index fl) lo) (omega (arith, below, domain_fits h)),
        below,
        sub-add_cancel i (min_index fl) lo,
      )

  pub offset-add : (n : ℕ) → n < num_buckets → offset fl (pos n +ℤ min_index fl) ≡ some n
  offset-add n h = offset_of_sub _ n (add-sub_cancel (pos n) (min_index fl)) h
