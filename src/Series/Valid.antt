-- ===== src/Series/Valid.antt =====
-- The invariant of a series, and that folding a record into it is total and keeps it.
use maping.Base.{
  ◌≤◌, ◌≡◌, refl, ap, ◌∙◌, sym, true, false, some, length, max, arith, inl, ◌⊎◌, length-set,
  length-replicate,
}
use maping.Base.Int.{ℤ}
use maping.Base.Word.{add64}
use maping.Base.Assoc.{nat_key}
use maping.Base.Bytes.{bytes_key}
use maping.Float.{Float}
use maping.Sketch
use maping.Sketch.Domain.{MathLaws}
use maping.Sketch.Invariant.{observe_total, new-IsValid as sketch_new-IsValid}
use maping.Series.{
  Series, Record, Exemplar, max_status_codes, max_error_classes, max_error_exemplars, new_series,
  add_counters, observe_exemplar, observe_series, exemplar_of, to_u64, no_exemplar,
}
use maping.Series.Codes.{IsBounded, record_code-IsBounded, record_error_class-IsBounded}

module _ (fl : Float) where
  pub record IsValid (s : Series) : Type 0 where
    -- The sketch has seen every request of the series.
    pub sketch : Sketch.Invariant.IsValid fl s.sk
    pub agree : s.count ≡ s.sk.count
    pub codes : IsBounded max_status_codes s.status_codes
    pub labels : IsBounded max_error_classes s.error_classes
    -- The error slots, and how many are filled.
    pub slots : length s.errs ≡ max_error_exemplars
    pub errors : s.n_errs ≤ max_error_exemplars
    -- The slowest request is the one with the longest duration.
    pub slow :
        ((s.has_slowest ≡ false) × (s.max_duration_ns ≡ 0))
        ⊎ ((s.has_slowest ≡ true) × (s.max_duration_ns ≡ s.slowest.duration_ns))

  pub new_series-IsValid : IsValid new_series
  unfolding new_series Sketch.new
  new_series-IsValid = record {
    sketch = sketch_new-IsValid fl;
    agree = refl;
    codes = record { small = omega arith; distinct = tt };
    labels = record { small = omega arith; distinct = tt };
    slots = length-replicate max_error_exemplars no_exemplar;
    errors = omega arith;
    slow = inl (refl, refl);
  }

  observe_exemplar-IsValid :
      (s : Series) (rec : Record) (ex : Exemplar) → IsValid s → IsValid (observe_exemplar s rec ex)
  unfolding observe_exemplar
  observe_exemplar-IsValid s rec ex v = record {
    sketch = v.sketch;
    agree = v.agree;
    codes = v.codes;
    labels = v.labels;
    slots = ground (arith, v.slots, length-set s.errs s.n_errs ex);
    errors = ground (arith, v.errors);
    slow = ground (arith, v.slow);
  }

  observe_exemplar-sk :
      (s : Series) (rec : Record) (ex : Exemplar)
      → ((observe_exemplar s rec ex).sk ≡ s.sk) × ((observe_exemplar s rec ex).count ≡ s.count)
  unfolding observe_exemplar
  observe_exemplar-sk s rec ex = (refl, refl)

  add_counters-IsValid :
      (s : Series) (rec : Record) (sk' : Sketch.DdSketch)
      → IsValid s
      → Sketch.Invariant.IsValid fl sk'
      → sk'.count ≡ add64 s.sk.count 1
      → IsValid (add_counters s rec sk')
  unfolding add_counters
  add_counters-IsValid s rec sk' v val up = record {
    sketch = val;
    agree = ap (λ n. add64 n 1) v.agree ∙ sym up;
    codes = record_code-IsBounded s.status_codes rec.status v.codes;
    labels = record_error_class-IsBounded s.error_classes rec.error_class v.labels;
    slots = v.slots;
    errors = v.errors;
    slow = v.slow;
  }

  observe_exemplar-max :
      (s : Series) (rec : Record) (ex : Exemplar)
      → (observe_exemplar s rec ex).max_duration_ns ≡ max s.max_duration_ns ex.duration_ns
  unfolding observe_exemplar
  observe_exemplar-max s rec ex = ground arith

  module _ (seconds : ℤ → fl.F) where
    -- Folding any record into a valid series succeeds: it keeps the series valid, raises the count
    -- by one, in the series and in its sketch alike, and the maximum is the larger of the old one
    -- and the record's duration, a negative duration counting as zero.
    pub observe_series_total :
        (w : MathLaws fl) (s : Series) (rec : Record) (now_ms : ℤ)
        → Sketch.init fl ≡ true
        → IsValid s
        → (t : Series) × (observe_series fl seconds s rec now_ms ≡ some t)
          × IsValid t
          × (t.count ≡ add64 s.count 1)
          × (t.sk.count ≡ add64 s.sk.count 1)
          × (t.max_duration_ns ≡ max s.max_duration_ns (to_u64 rec.duration))
    unfolding observe_series exemplar_of add_counters
    observe_series_total w s rec now_ms h v =
        let (n, sk', _, e, val, up, _, _) =
          observe_total fl w s.sk (seconds rec.duration) h v.sketch in
        let s' = add_counters s rec sk' in
        let ex = exemplar_of rec now_ms in
        let (same_sk, same_count) = observe_exemplar-sk s' rec ex in
        (
          observe_exemplar s' rec ex,
          rw (e, observe_series) refl,
          observe_exemplar-IsValid s' rec ex (add_counters-IsValid s rec sk' v val up),
          same_count,
          ap (λ k. k.count) same_sk ∙ up,
          observe_exemplar-max s' rec ex,
        )
