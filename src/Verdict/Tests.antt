-- ===== src/Verdict/Tests.antt =====
-- The verdict in whole seconds.
use maping.Base.{◌≡◌, refl, List, [], ◌∷◌, ℕ, ◌++◌, true, All, replicate}
use mathlib.Core.List.{Perm}
use maping.Base.Bytes.{codes}
use maping.Base.Sort.{sort_by, insert_left, sort_onto, reverse_onto, IsOrdered}
use maping.Base.Text.{join}
use maping.Format.{fmt_pct_d, fmt_ms_full, fmt_ms_val, fmt_ms_unit, fmt_ratio, times_sign}
use maping.Format.Digits.{last_digit}
use maping.Sketch.Whole.{whole}
use maping.Verdict.{
  Detail, TimePoint, sev_none, sev_degraded, sev_critical, err_sev, spread_sev, lat_sev,
  enough_samples, compute_verdict, stronger, reasons, problem_sentence, reason_if, is_none, rank_of,
  median, float_less,
}
use maping.Verdict.Grade.{Shows, judged, compute_verdict_lem}
use maping.Verdict.Reasons.{Firing, reasons_lem}

-- A hundred requests, all of them errors, with a p95 of eight seconds over a median of one.
abbrev slow : Detail ℕ
slow = record {
  count = 100;
  error_rate = 1;
  error_high = true;
  p50 = 1;
  p95 = 8;
  p99 = 9;
  classes = [];
  codes = [];
}

abbrev past : List (TimePoint ℕ)
past = replicate 30 (record { count = 5; p95 = 2 })

middle : median whole (1 ∷ 2 ∷ 4 ∷ 8 ∷ []) ≡ 3
unfolding median
middle = refl

sorted : sort_by (float_less whole) (3 ∷ 1 ∷ 2 ∷ []) ≡ 1 ∷ 2 ∷ 3 ∷ []
unfolding sort_by insert_left sort_onto reverse_onto float_less
sorted = refl

worst_first :
    problem_sentence whole last_digit slow 8 4 sev_critical sev_none sev_degraded
    ≡ codes "0.0% errors; p95 8.0 s (4.0" ++ times_sign ++ codes " baseline)."
unfolding problem_sentence reasons reason_if is_none rank_of stronger sort_by insert_left sort_onto
    reverse_onto join fmt_pct_d fmt_ms_full fmt_ms_val fmt_ms_unit fmt_ratio
worst_first = refl

compute_verdict_lem_example :
    Shows whole last_digit slow past 60
      (judged
        (enough_samples whole slow)
        (err_sev whole slow)
        (spread_sev whole slow)
        (lat_sev whole slow past))
      (compute_verdict whole last_digit slow past 60)
compute_verdict_lem_example = compute_verdict_lem whole last_digit slow past 60

reasons_lem_example :
    let fired = reasons whole last_digit slow 8 4 sev_critical sev_none sev_degraded in
    Perm (sort_by stronger fired) fired
    × All Firing (sort_by stronger fired)
    × IsOrdered stronger (sort_by stronger fired)
reasons_lem_example = reasons_lem whole last_digit slow 8 4 sev_critical sev_none sev_degraded
