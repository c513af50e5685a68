-- ===== src/Diagnosis/Fired.antt =====
-- What a candidate cause that fired carries.
use maping.Base.{
  ◌≤◌, ◌≡◌, refl, ◌⊎◌, inl, inr, false, Option, none, some, List, [], ◌∷◌, keep, All, Bool-cases,
  arith,
}
use maping.Base.Bytes.{Bytes, is_empty}
use maping.Float.{Float}
use maping.Format.{Strconv}
use maping.Diagnosis.{candidates}
use maping.Panels.Rows.{InstanceRow, DownstreamView}
use maping.Stats.{VersionStat}
use maping.Causes.{Cause, DiagnosisParams, quiet, signal_if}
use maping.Causes.Fleet.{FleetResources}
use maping.Causes.Resource.{
  cause_memory, cause_cpu, cause_goroutine_leak, memory_signals, memory_falsifier,
}
use maping.Causes.Blocked.{
  cause_congestion, cause_overload, cause_downstream, add_congestion_signals,
}
use maping.Causes.Localized.{
  cause_instance_localized, cause_release, localized, localized_by, regressed, regression_of,
  release_worse_ratio,
}

-- From one signal up to the most that the cause can match, and a falsifier.
unfoldable pub Corroborated : (fl : Float) → Cause fl.F → Type 0
Corroborated fl c = (1 ≤ c.signals) × (c.signals ≤ c.max_signals) × (is_empty c.falsifier ≡ false)

module _ (fl : Float) where
  pub Sound : Cause fl.F → Type 0
  Sound c = (c.fired ≡ false) ⊎ Corroborated fl c

  pub keep-Corroborated :
      (cs : List (Cause fl.F))
      → All Sound cs
      → All (Corroborated fl) (keep (λ (c : Cause fl.F). c.fired) cs)
  unfolding Sound Corroborated
  keep-Corroborated [] h = tt
  keep-Corroborated (c ∷ cs) (inl e, h) = rw e (keep-Corroborated cs h)
  keep-Corroborated (c ∷ cs) (inr s, h) = elim (Bool-cases c.fired) [
    | inl e ↦ rw e (s, keep-Corroborated cs h)
    | inr e ↦ rw e (keep-Corroborated cs h)
  ]

  module _ (go : Strconv fl.F) where
    cause_cpu-Sound : (win : FleetResources fl.F) → Sound (cause_cpu fl go win)
    unfolding Sound Corroborated cause_cpu quiet
    cause_cpu-Sound win = ground arith

    cause_goroutine_leak-Sound :
        (win base : FleetResources fl.F) → Sound (cause_goroutine_leak fl go win base)
    unfolding Sound Corroborated cause_goroutine_leak quiet
    cause_goroutine_leak-Sound win base = ground arith

    cause_downstream-Sound : (ds : DownstreamView fl.F) → Sound (cause_downstream fl go ds)
    unfolding Sound Corroborated cause_downstream quiet
    cause_downstream-Sound ds = ground arith

    cause_overload-Sound :
        (p : DiagnosisParams fl.F) (win base : FleetResources fl.F)
        → Sound (cause_overload fl go p win base)
    unfolding Sound Corroborated cause_overload quiet signal_if
    cause_overload-Sound p win base = ground arith

    cause_congestion-Sound :
        (win base : FleetResources fl.F) (ds : DownstreamView fl.F)
        → Sound (cause_congestion fl go win base ds)
    unfolding Sound Corroborated cause_congestion quiet add_congestion_signals
    cause_congestion-Sound win base ds = ground arith

    memory_falsifier_lem : (t : Bytes) → is_empty (memory_falsifier fl go t) ≡ false
    unfolding memory_falsifier
    memory_falsifier_lem [] = refl
    memory_falsifier_lem (c ∷ t) = refl

    cause_memory-Sound :
        (p : DiagnosisParams fl.F) (win base : FleetResources fl.F)
        → Sound (cause_memory fl go p win base)
    unfolding Sound Corroborated cause_memory quiet memory_signals signal_if
    cause_memory-Sound p win base = ground (arith, memory_falsifier_lem p.memory.falsifier)

    localized-Sound :
        (m : fl.F) (worst : InstanceRow fl.F) (c : Cause fl.F)
        → 1 ≤ c.max_signals
        → Sound (localized fl go m worst c)
    unfolding Sound Corroborated localized
    localized-Sound m worst c h = inr (omega arith, h, refl)

    localized_by-Sound :
        (ps : List fl.F) (worst : Option (InstanceRow fl.F)) → Sound (localized_by fl go ps worst)
    unfolding Sound localized_by quiet
    localized_by-Sound [] worst = inl refl
    localized_by-Sound (p ∷ ps) none = inl refl
    localized_by-Sound (p ∷ ps) (some worst) = localized-Sound _ worst _ (omega arith)

    regressed-Sound :
        (best worst : VersionStat fl.F) (c : Cause fl.F)
        → 2 ≤ c.max_signals
        → Sound (regressed fl go best worst c)
    unfolding Sound Corroborated regressed signal_if
    regressed-Sound best worst c h = inr (ground arith, ground arith, refl)

    regression_of-Sound :
        (found : Option (VersionStat fl.F × VersionStat fl.F)) → Sound (regression_of fl go found)
    unfolding Sound regression_of quiet
    regression_of-Sound none = inl refl
    regression_of-Sound (some (best, worst)) =
        elim (Bool-cases (fl.lt (fl.div worst.p95 best.p95) (release_worse_ratio fl))) [
          | inl e ↦ rw e (inl refl)
          | inr e ↦ rw e (regressed-Sound best worst _ (omega arith))
        ]

    -- Each of the eight candidates has not fired or is corroborated.
    pub candidates-Sound : (p : DiagnosisParams fl.F) → All Sound (candidates fl go p)
    unfolding candidates cause_instance_localized cause_release
    candidates-Sound p = (
      cause_memory-Sound p _ _,
      (
        cause_cpu-Sound _,
        (
          cause_congestion-Sound _ _ _,
          (
            cause_overload-Sound p _ _,
            (
              cause_goroutine_leak-Sound _ _,
              (cause_downstream-Sound _, (localized_by-Sound _ _, (regression_of-Sound _, tt))),
            ),
          ),
        ),
      ),
    )
