-- ===== src/Sketch/Whole.antt =====
-- Whole numbers in place of float64, for runs at concrete inputs.
use maping.Base.{ℕ, ◌≡◌, refl, true, false, ◌/◌, ◌+◌, ◌-◌, ◌*◌, ltb, leb, arith}
use maping.Base.Int.{pos, pos_part, ◌+ℤ◌, ◌-ℤ◌, ◌≤ℤ◌}
use maping.Float.{Float, Le}
use maping.Sketch.{
  num_buckets, gamma, min_value, max_value, log_gamma, index, min_index, max_index, init,
  domain_size,
}
use maping.Sketch.Domain.{MathLaws}

-- Whole seconds: every bucket is one second wide, from 0 to 60.
abbrev pub whole : Float
whole = record {
  F = ℕ;
  lit = λ a b. a / b;
  is_nan = λ a. false;
  lt = ltb;
  le = leb;
  add = ◌+◌;
  sub = ◌-◌;
  mul = ◌*◌;
  div = λ a b. a / b;
  log = λ a. a;
  ceil = λ a. a;
  round = λ a. a;
  pow = λ a b. b;
  of_ℕ = λ n. n;
  of_ℤ = pos_part;
  to_int = pos;
  to_uint64 = λ a. a;
  fits_int = λ a. true;
}

whole_log_mono :
    (a b : ℕ) → Le whole (min_value whole) a → Le whole a b → Le whole (whole.log a) (whole.log b)
whole_log_mono a b h k = k

whole_div_mono : (a b : ℕ) → Le whole a b → Le whole (a / log_gamma whole) (b / log_gamma whole)
unfolding log_gamma gamma
whole_div_mono a b h = (refl, refl, ground arith)

whole_to_int_mono : (a b c : ℕ) → Le whole a b → Le whole b c → (pos a ≤ℤ pos b) × (pos b ≤ℤ pos c)
whole_to_int_mono a b c h k = ground arith

pub whole_laws : MathLaws whole
unfolding min_value max_value log_gamma gamma min_index index num_buckets ◌+ℤ◌
whole_laws = record {
  min_max = (refl, refl, refl);
  min_refl = (refl, refl, refl);
  max_refl = (refl, refl, refl);
  log_mono = whole_log_mono;
  div_mono = whole_div_mono;
  ceil_mono = λ a b h. h;
  to_int_mono = λ a b c p q h k. whole_to_int_mono a b c h k;
  min_fits = refl;
  max_fits = refl;
  low_end = omega arith;
  high_end = omega arith;
}

pub whole-init : init whole ≡ true
unfolding init min_index max_index index log_gamma gamma min_value max_value num_buckets ◌+ℤ◌ ◌-ℤ◌
whole-init = refl

pub whole_size : domain_size whole ≡ 61
unfolding domain_size min_index max_index index log_gamma gamma min_value max_value num_buckets ◌+ℤ◌
    ◌-ℤ◌
whole_size = refl
