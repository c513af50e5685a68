-- ===== src/Diagnosis/Card.antt =====
-- What the diagnosis card shows.
use maping.Base.{
  ◌≡◌, refl, ap, ◌≢◌, ◌⊎◌, inl, inr, Bool, true, false, List, [], ◌∷◌, map, All, Bool-cases, arith,
}
use mathlib.Core.List.{Perm}
use maping.Base.Bytes.{Bytes, codes, is_empty}
use maping.Base.Sort.{sort_by-Perm, sort_by-IsOrdered, All-sort_by, IsOrdered}
use maping.Float.{Float}
use maping.Format.{Strconv}
use maping.Memory.{Trend}
use maping.Causes.Resource.{is_leak, is_burst_level}
use maping.Verdict.{
  Level, Severity, sev_none, sev_degraded, sev_critical, TimePoint, err_sev, spread_sev, lat_sev,
  enough_samples, compute_verdict,
}
use maping.Verdict.Grade.{judged, worst, shown_as, Shows, compute_verdict_lem}
use maping.Causes.{Cause, DiagnosisParams, score}
use maping.Diagnosis.{
  DiagnosisView, CauseSummary, hidden, unattributed, is_alarm, anomalous, candidates, higher,
  fired_causes, ranked, top_of, summary_of, card, compute_diagnosis,
}
use maping.Diagnosis.Fired.{Corroborated, keep-Corroborated, candidates-Sound}

-- Comparing numbers never answers true both ways, also where one is a NaN.
unfoldable pub Asymmetric : Float → Type 0
Asymmetric fl = (a b : fl.F) → fl.lt a b ≡ true → fl.lt b a ≡ false

-- The names on a card, the top one first.
unfoldable pub listed : DiagnosisView → List Bytes
listed v = v.top_cause.name ∷ map (λ (s : CauseSummary). s.name) v.others

unfoldable pub names : {F : Type 0} → List (Cause F) → List Bytes
names {F} cs = map (λ (c : Cause F). c.name) cs

abbrev pub Anomaly : Level → Trend → Type 0
Anomaly level trend =
    ((level ≡ Level.degraded) ⊎ (level ≡ Level.critical))
    ⊎ ((trend ≡ Trend.leak) ⊎ (trend ≡ Trend.burst))

abbrev pub Calm : Level → Trend → Type 0
Calm level trend =
    ((level ≡ Level.healthy) ⊎ (level ≡ Level.unknown))
    × ((trend ≡ Trend.stable) ⊎ (trend ≡ Trend.unknown))

-- Every level with every trend.
anomalous-cases :
    (l : Level) (t : Trend)
    → (anomalous l t ≡ true) × Anomaly l t ⊎ (anomalous l t ≡ false) × Calm l t
unfolding anomalous is_alarm is_leak is_burst_level
anomalous-cases Level.degraded t = inl (refl, inl (inl refl))
anomalous-cases Level.critical t = inl (refl, inl (inr refl))
anomalous-cases Level.healthy Trend.leak = inl (refl, inr (inl refl))
anomalous-cases Level.healthy Trend.burst = inl (refl, inr (inr refl))
anomalous-cases Level.healthy Trend.stable = inr (refl, (inl refl, inl refl))
anomalous-cases Level.healthy Trend.unknown = inr (refl, (inl refl, inr refl))
anomalous-cases Level.unknown Trend.leak = inl (refl, inr (inl refl))
anomalous-cases Level.unknown Trend.burst = inl (refl, inr (inr refl))
anomalous-cases Level.unknown Trend.stable = inr (refl, (inr refl, inl refl))
anomalous-cases Level.unknown Trend.unknown = inr (refl, (inr refl, inr refl))

module _ (fl : Float) (go : Strconv fl.F) where
  -- The causes are ranked as they fired, each once: from one signal up to the most that it can
  -- match, with a falsifier, and none scores higher than the one before it, if < is asymmetric.
  pub ranked_lem :
      (p : DiagnosisParams fl.F)
      → Asymmetric fl
      → Perm (ranked fl go p) (fired_causes fl go p)
        × All (Corroborated fl) (ranked fl go p)
        × IsOrdered (λ (a b : Cause fl.F). fl.lt (score fl b) (score fl a)) (ranked fl go p)
  unfolding ranked fired_causes Asymmetric higher
  ranked_lem p asym =
      let fired = fired_causes fl go p in
      (
        sort_by-Perm (higher fl go) fired,
        All-sort_by (higher fl go) (Corroborated fl) fired
            (keep-Corroborated fl (candidates fl go p) (candidates-Sound fl go p)),
        sort_by-IsOrdered (higher fl go) (λ x y h. asym _ _ h) fired,
      )

  -- The card of an anomaly lists the causes given, or one that is unattributed.
  pub Lists : List (Cause fl.F) → DiagnosisView → Type 0
  Lists cs v =
      (v.show ≡ true)
      × (is_empty v.top_cause.falsifier ≡ false)
      × ((listed v ≡ names cs) ⊎ (cs ≡ []) × (listed v ≡ codes "Unattributed" ∷ []))

  names_summary :
      (cs : List (Cause fl.F))
      → map (λ (s : CauseSummary). s.name) (map (summary_of fl go) cs) ≡ names cs
  unfolding names summary_of
  names_summary [] = refl
  names_summary (c ∷ cs) = ap (λ (ns : List Bytes). c.name ∷ ns) (names_summary cs)

  card-Lists :
      (why scope : Bytes) (cs : List (Cause fl.F))
      → All (Corroborated fl) cs
      → Lists cs (card fl go why scope cs)
  unfolding Lists card unattributed listed names Corroborated top_of
  card-Lists why scope [] _ = (refl, refl, inr (refl, refl))
  card-Lists why scope (c ∷ cs) (h, _) =
      (refl, h.2, inl (ap (λ (ns : List Bytes). c.name ∷ ns) (names_summary cs)))

  ranked-Corroborated : (p : DiagnosisParams fl.F) → All (Corroborated fl) (ranked fl go p)
  unfolding ranked fired_causes
  ranked-Corroborated p =
      All-sort_by (higher fl go) (Corroborated fl) (fired_causes fl go p)
        (keep-Corroborated fl (candidates fl go p) (candidates-Sound fl go p))

  shown_or_hidden :
      (p : DiagnosisParams fl.F)
      → (anomalous p.verdict.level p.memory.level ≡ true)
          × Lists (ranked fl go p) (compute_diagnosis fl go p)
        ⊎ (anomalous p.verdict.level p.memory.level ≡ false)
          × ((compute_diagnosis fl go p).show ≡ false)
  unfolding compute_diagnosis hidden
  shown_or_hidden p = elim (Bool-cases (anomalous p.verdict.level p.memory.level)) [
    | inl e ↦ inl (e, rw e (card-Lists _ _ (ranked fl go p) (ranked-Corroborated p)))
    | inr e ↦ inr (e, rw e refl)
  ]

  -- The card of an endpoint that is degraded or critical, or whose memory leaks or bursts, is
  -- shown, has a falsifier, and lists the causes that fired in their ranking, or a single
  -- unattributed one if none fired; the card of an endpoint that is healthy or unknown, and whose
  -- memory is stable or unknown, is not shown.
  pub compute_diagnosis_lem :
      (p : DiagnosisParams fl.F)
      → Anomaly p.verdict.level p.memory.level × Lists (ranked fl go p) (compute_diagnosis fl go p)
        ⊎ Calm p.verdict.level p.memory.level × ((compute_diagnosis fl go p).show ≡ false)
  compute_diagnosis_lem p =
      let sorts = anomalous-cases p.verdict.level p.memory.level in
      elim (shown_or_hidden p) [
        | inl (e, shown) ↦ elim sorts [ inl (_, a) ↦ inl (a, shown) | inr (n, _) ↦ cc (e, n) ]
        | inr (e, gone) ↦ elim sorts [ inl (y, _) ↦ cc (e, y) | inr (_, c) ↦ inr (c, gone) ]
      ]

  alarm_shown : (b : Bool) (s : Severity) → s ≢ sev_none → is_alarm (shown_as b s) ≡ true
  unfolding is_alarm shown_as
  alarm_shown b sev_none h = absurd (h refl)
  alarm_shown b sev_degraded h = refl
  alarm_shown b sev_critical h = refl

  worst_some : (a b : Severity) → a ≢ sev_none → worst a b ≢ sev_none
  unfolding worst
  worst_some sev_none b h = absurd (h refl)
  worst_some sev_degraded sev_none h = h
  worst_some sev_degraded sev_degraded h = h
  worst_some sev_degraded sev_critical h = λ e. cc
  worst_some sev_critical b h = h

  judged_errors : (b : Bool) (e s l : Severity) → e ≢ sev_none → judged b e s l ≢ sev_none
  unfolding judged
  judged_errors true e s l h = worst_some (worst e s) l (worst_some e s h)
  judged_errors false e s l h = h

  -- An endpoint whose error component is degraded or critical gets a card with a falsifier, at any
  -- number of requests and whatever its resources and its memory show.
  pub errors_diagnosed :
      (p : DiagnosisParams fl.F) (baseline : List (TimePoint fl.F))
      → p.verdict ≡ compute_verdict fl go p.detail baseline p.win_seconds
      → err_sev fl p.detail ≢ sev_none
      → Lists (ranked fl go p) (compute_diagnosis fl go p)
  unfolding Shows anomalous
  errors_diagnosed p baseline e h =
      let d = p.detail in
      let s =
        judged (enough_samples fl d) (err_sev fl d) (spread_sev fl d) (lat_sev fl d baseline) in
      let shown = (compute_verdict_lem fl go d baseline p.win_seconds).0 in
      let alarm : is_alarm p.verdict.level ≡ true =
        rw (e, shown) (alarm_shown (enough_samples fl d) s (judged_errors _ _ _ _ h)) in
      elim (shown_or_hidden p) [ inl (_, l) ↦ l | inr (n, _) ↦ ground arith ]
