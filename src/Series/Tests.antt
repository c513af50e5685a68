-- ===== src/Series/Tests.antt =====
-- The theorems on a series at concrete inputs.
use maping.Base.{
  true, Selects, ℕ, ◌+◌, ◌≤◌, ◌≡◌, ◌≢◌, false, List, [], ◌∷◌, length, arith, ◌⊎◌, max, some, take,
}
use maping.Base.Int.{ℤ, pos, negsuc}
use maping.Base.Word.{add64}
use maping.Base.Bytes.{Bytes, bytes_key}
use maping.Base.Assoc.{nat_key}
use maping.Sketch.Whole.{whole, whole_laws, whole-init}
use maping.Series.{
  Series, Record, Exemplar, new_series, observe_series, observe_exemplar, exemplar_of, is_error,
  to_u64, exemplars, max_status_codes, max_error_exemplars,
}
use maping.Series.Codes.{IsBounded}
use maping.Series.Counts.{all_codes, counted_codes, counted_labels, Tells, all_codes_exact}
use maping.Series.Valid.{IsValid, new_series-IsValid, observe_series_total}
use maping.Series.Exemplars.{exemplars_lem}

-- A request of three seconds that failed with the status 500, with a label.
abbrev failed : Record
failed = record {
  method = 71 ∷ 69 ∷ 84 ∷ [];
  route_template = 47 ∷ [];
  status = pos 500;
  duration = pos 3;
  req_bytes = pos 10;
  resp_bytes = negsuc 0;
  trace_id = [];
  span_id = [];
  request_id = 55 ∷ [];
  error_class = 100 ∷ 98 ∷ [];
  no_status_reason = 0;
  downstream_duration = pos 1;
}

abbrev seconds : ℤ → ℕ
seconds (pos n) = n
seconds (negsuc n) = 0

abbrev statuses : List ℤ
statuses = pos 200 ∷ pos 404 ∷ negsuc 0 ∷ pos 200 ∷ []

all_codes_exact_example :
    IsBounded max_status_codes (all_codes statuses)
    × Tells max_status_codes (all_codes statuses) (counted_codes statuses) 200
all_codes_exact_example = all_codes_exact statuses 200 (omega arith)

-- "db", "DB" and "!".
abbrev labels : List Bytes
labels = (100 ∷ 98 ∷ []) ∷ (68 ∷ 66 ∷ []) ∷ (33 ∷ []) ∷ []

few_labels : (raws : List Bytes) → length (counted_labels raws) ≤ length raws
few_labels [] = omega arith
few_labels (raw ∷ raws) = ground (arith, few_labels raws)

observe_series_total_example :
    (t : Series) × (observe_series whole seconds new_series failed (pos 9) ≡ some t)
    × IsValid whole t
    × (t.count ≡ add64 new_series.count 1)
    × (t.sk.count ≡ add64 new_series.sk.count 1)
    × (t.max_duration_ns ≡ max new_series.max_duration_ns (to_u64 failed.duration))
observe_series_total_example =
    observe_series_total whole seconds whole_laws new_series failed (pos 9) whole-init
      (new_series-IsValid whole)

abbrev seen : Series
seen = observe_exemplar new_series failed (exemplar_of failed (pos 9))

seen_errors : seen.n_errs ≤ max_error_exemplars
unfolding observe_exemplar new_series is_error max_error_exemplars
seen_errors = ground arith

exemplars_lem_example :
    (length (exemplars seen) ≤ 1 + max_error_exemplars)
    × ((seen.has_slowest ≡ false) × (exemplars seen ≡ take seen.n_errs seen.errs)
        ⊎ (seen.has_slowest ≡ true)
          × ((sent : List Exemplar) × (exemplars seen ≡ seen.slowest ∷ sent)
              × Selects
                  (λ e. e ≢ seen.slowest)
                  (λ e. e ≡ seen.slowest)
                  (take seen.n_errs seen.errs)
                  sent))
exemplars_lem_example = exemplars_lem seen seen_errors
