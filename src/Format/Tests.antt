-- ===== src/Format/Tests.antt =====
-- Whole seconds and whole counts as text; a number's text is its last digit.
use maping.Base.{◌≡◌, refl, [], ◌∷◌}
use maping.Base.Bytes.{codes, bytes_discrete}
use maping.Base.Text.{join}
use maping.Format.{trim_suffix, fmt_ms_full, fmt_ms_val, fmt_ms_unit, fmt_bytes, fmt_pct_d}
use maping.Format.Digits.{last_digit}
use maping.Sketch.Whole.{whole}

trim_point : trim_suffix (codes "2.0") (codes ".0") ≡ codes "2"
unfolding trim_suffix bytes_discrete
trim_point = refl

join_two : join (codes "a" ∷ codes "b" ∷ []) (codes "; ") ≡ codes "a; b"
unfolding join
join_two = refl

seconds_text : fmt_ms_full whole last_digit 3 ≡ codes "3.0 s"
unfolding fmt_ms_full fmt_ms_val fmt_ms_unit
seconds_text = refl

kilobytes_text : fmt_bytes whole last_digit 3072 ≡ codes "3 KB"
unfolding fmt_bytes trim_suffix bytes_discrete
kilobytes_text = refl

percent_text : fmt_pct_d whole last_digit 1 ≡ codes "0.0%"
unfolding fmt_pct_d
percent_text = refl
