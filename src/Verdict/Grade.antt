-- ===== src/Verdict/Grade.antt =====
-- What the level of a verdict tells.
use maping.Base.{
  ◌∙◌, ◌≡◌, refl, inl, inr, Bool, true, false, List, [], ◌∷◌, Bool-cases, ltb, if◌then◌else◌,
}
use maping.Float.{Float}
use maping.Format.{Strconv}
use maping.Verdict.{
  Level, unknown, healthy, degraded, critical, VerdictView, Severity, sev_none, sev_degraded,
  sev_critical, max_severity, max_from, rank_of, Detail, TimePoint, err_sev, spread_sev, lat_sev,
  enough_samples, usable_baseline, calm_verdict, alarm, compute_verdict,
}

-- The worst of two severities, and the level that a severity is shown as.
unfoldable pub worst : Severity → Severity → Severity
worst sev_none b = b
worst sev_critical b = sev_critical
worst sev_degraded sev_critical = sev_critical
worst sev_degraded sev_none = sev_degraded
worst sev_degraded sev_degraded = sev_degraded

unfoldable pub shown_as : Bool → Severity → Level
shown_as enough sev_critical = critical
shown_as enough sev_degraded = degraded
shown_as enough sev_none = if enough then healthy else unknown

-- The severities that count: below the least number of samples only that of the errors.
unfoldable pub judged : Bool → Severity → Severity → Severity → Severity
judged true err spr lat = worst (worst err spr) lat
judged false err spr lat = err

unfoldable pub alarming : Level → Bool
alarming unknown = false
alarming healthy = false
alarming degraded = true
alarming critical = true

worst_none : (a : Severity) → worst a sev_none ≡ a
unfolding worst
worst_none sev_none = refl
worst_none sev_degraded = refl
worst_none sev_critical = refl

max_step : (a b : Severity) → (if ltb (rank_of a) (rank_of b) then b else a) ≡ worst a b
unfolding rank_of worst
max_step sev_none sev_none = refl
max_step sev_none sev_degraded = refl
max_step sev_none sev_critical = refl
max_step sev_degraded sev_none = refl
max_step sev_degraded sev_degraded = refl
max_step sev_degraded sev_critical = refl
max_step sev_critical sev_none = refl
max_step sev_critical sev_degraded = refl
max_step sev_critical sev_critical = refl

pub max_severity_lem : (a b c : Severity) → max_severity (a ∷ b ∷ c ∷ []) ≡ worst (worst a b) c
unfolding max_severity max_from worst
max_severity_lem a b c = simp max_step refl

module _ (fl : Float) (go : Strconv fl.F) (d : Detail fl.F) (baseline : List (TimePoint fl.F))
    (win_seconds : fl.F) where
  few_spread : enough_samples fl d ≡ false → spread_sev fl d ≡ sev_none
  unfolding spread_sev
  few_spread h = rw h refl

  few_latency : enough_samples fl d ≡ false → lat_sev fl d baseline ≡ sev_none
  unfolding lat_sev usable_baseline
  few_latency h = rw (h, lat_sev, usable_baseline) refl

  -- The level that the verdict shows is that of the worst severity judged; the headline repeats
  -- it, and the page opens the details exactly at an alarm.
  unfoldable pub Shows : Severity → VerdictView → Type 0
  Shows s v =
      (v.level ≡ shown_as (enough_samples fl d) s)
      × (v.headline ≡ v.level)
      × (v.opened ≡ alarming v.level)

  calm_verdict-Shows : Shows sev_none (calm_verdict fl go d)
  unfolding Shows calm_verdict shown_as alarming
  calm_verdict-Shows = elim (Bool-cases (enough_samples fl d)) [
    | inl e ↦ rw e (refl, refl, refl)
    | inr e ↦ rw e (refl, refl, refl)
  ]

  all_judged :
      (b : Bool)
      → enough_samples fl d ≡ b
      → worst (worst (err_sev fl d) (spread_sev fl d)) (lat_sev fl d baseline)
        ≡ judged b (err_sev fl d) (spread_sev fl d) (lat_sev fl d baseline)
  unfolding judged
  all_judged true h = refl
  all_judged false h = simp (few_spread h, few_latency h, worst_none) refl

  compute_verdict-Shows :
      (s : Severity)
      → max_severity (err_sev fl d ∷ spread_sev fl d ∷ lat_sev fl d baseline ∷ []) ≡ s
      → Shows s (compute_verdict fl go d baseline win_seconds)
  unfolding Shows compute_verdict alarm shown_as alarming
  compute_verdict-Shows sev_none h = rw (h, compute_verdict) calm_verdict-Shows
  compute_verdict-Shows sev_degraded h = rw (h, compute_verdict) (refl, refl, refl)
  compute_verdict-Shows sev_critical h = rw (h, compute_verdict) (refl, refl, refl)

  -- The verdict shows the level of the worst of the three severities, below twenty requests that
  -- of the errors alone; with no severity the level is healthy, or unknown below twenty requests,
  -- the headline repeats the level, and the details are opened exactly if it is degraded or
  -- critical.
  pub compute_verdict_lem :
      Shows
        (judged (enough_samples fl d) (err_sev fl d) (spread_sev fl d) (lat_sev fl d baseline))
        (compute_verdict fl go d baseline win_seconds)
  compute_verdict_lem =
      compute_verdict-Shows
        (judged (enough_samples fl d) (err_sev fl d) (spread_sev fl d) (lat_sev fl d baseline))
        (max_severity_lem (err_sev fl d) (spread_sev fl d) (lat_sev fl d baseline)
          ∙ all_judged (enough_samples fl d) refl)
