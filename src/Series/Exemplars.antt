-- ===== src/Series/Exemplars.antt =====
-- The exemplars that a series sends.
use maping.Base.{
  ℕ, suc, ◌+◌, ◌≤◌, ◌≡◌, ◌≢◌, true, false, List, [], ◌∷◌, length, take, Selects, selected, keeps,
  leaves, zero, ap, refl, ◌∙◌, arith, Bool-cases, inl, inr, ◌⊎◌,
}
use mathlib.Core.Logic.{if_pos, if_neg}
use maping.Series.{
  Series, Exemplar, Exemplar-discrete, max_error_exemplars, without_slowest, exemplars,
}

length-take-le : (n : ℕ) (es : List Exemplar) → length (take n es) ≤ n
length-take-le zero es = omega arith
length-take-le (suc n) [] = omega arith
length-take-le (suc n) (e ∷ es) = omega (arith, length-take-le n es)

length-without_slowest-le :
    (s : Series) (es : List Exemplar) → length (without_slowest s es) ≤ length es
unfolding without_slowest
length-without_slowest-le s [] = omega arith
length-without_slowest-le s (e ∷ es) = ground (arith, length-without_slowest-le s es)

without_slowest-Selects :
    (s : Series) (es : List Exemplar)
    → s.has_slowest ≡ true
    → Selects (λ e. e ≢ s.slowest) (λ e. e ≡ s.slowest) es (without_slowest s es)
unfolding without_slowest
without_slowest-Selects s [] h = selected
without_slowest-Selects s (e ∷ es) h = elim (Exemplar-discrete e s.slowest) [
  | yes same ↦ rw h (rw (if_pos _ same) (leaves same (without_slowest-Selects s es h)))
  | no other ↦ rw h (rw (if_neg _ other) (keeps other (without_slowest-Selects s es h)))
]

without_slowest-all :
    (s : Series) (es : List Exemplar) → s.has_slowest ≡ false → without_slowest s es ≡ es
unfolding without_slowest
without_slowest-all s [] h = refl
without_slowest-all s (e ∷ es) h = rw h (ap (λ r. e ∷ r) (without_slowest-all s es h))

exemplars_slowest :
    (s : Series)
    → s.has_slowest ≡ true
    → exemplars s ≡ s.slowest ∷ without_slowest s (take s.n_errs s.errs)
unfolding exemplars
exemplars_slowest s e = ground arith

exemplars_none :
    (s : Series) → s.has_slowest ≡ false → exemplars s ≡ without_slowest s (take s.n_errs s.errs)
unfolding exemplars
exemplars_none s e = ground arith

-- A series with at most two kept errors sends at most three exemplars. Without a slowest request
-- they are the kept errors; with one, it comes first and is followed by exactly the kept errors
-- that are not the slowest request again, in their order.
pub exemplars_lem :
    (s : Series)
    → s.n_errs ≤ max_error_exemplars
    → (length (exemplars s) ≤ 1 + max_error_exemplars)
      × ((s.has_slowest ≡ false) × (exemplars s ≡ take s.n_errs s.errs)
          ⊎ (s.has_slowest ≡ true)
            × ((sent : List Exemplar) × (exemplars s ≡ s.slowest ∷ sent)
                × Selects (λ e. e ≢ s.slowest) (λ e. e ≡ s.slowest) (take s.n_errs s.errs) sent))
exemplars_lem s h =
    let errors = take s.n_errs s.errs in
    let few = length-take-le s.n_errs s.errs in
    let fewer = length-without_slowest-le s errors in
    elim (Bool-cases s.has_slowest) [
      | inl e ↦
          let parts = exemplars_slowest s e in
          (
            rw parts (omega (arith, few, fewer)),
            inr (e, (without_slowest s errors, parts, without_slowest-Selects s errors e)),
          )
      | inr e ↦
          let parts = exemplars_none s e in
          (rw parts (omega (arith, few, fewer)), inl (e, parts ∙ without_slowest-all s errors e))
    ]
