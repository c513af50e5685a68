-- ===== src/Ingest/Riding.antt =====
-- Which rows the windows of an upload add.
use maping.Base.{
  ◌≡◌, refl, ap, ◌∙◌, inl, inr, Bool, Option, none, some, List, [], ◌∷◌, ◌++◌, All, Bool-cases,
  Option-cases,
}
use mathlib.Core.Path.{subst}
use mathlib.Core.Option.{some-injective}
use maping.Base.Bytes.{Bytes}
use maping.Base.Int.{ℤ}
use maping.Ingest.{apply_timestamp_policy}
use maping.Ingest.Windows.{
  InstanceWindow, InstanceWindowRow, row_at, instance_window_to_row, store_rows,
  store_instance_windows,
}

append_nil {ℓ} : {A : Type ℓ} (xs : List A) → xs ≡ xs ++ []
append_nil [] = refl
append_nil (x ∷ xs) = ap (λ (ys : List _). x ∷ ys) (append_nil xs)

append_assoc {ℓ} : {A : Type ℓ} (xs ys zs : List A) → (xs ++ ys) ++ zs ≡ xs ++ (ys ++ zs)
append_assoc [] ys zs = refl
append_assoc (x ∷ xs) ys zs = ap (λ (ws : List _). x ∷ ws) (append_assoc xs ys zs)

module _ {F : Type 0} (tid service inst : Bytes) (now : ℤ) where
  -- The row is for the tenant, and its window is in band: the policy gave it its two times.
  pub IsInBand : InstanceWindowRow F → Type 0
  IsInBand row =
      (row.tenant ≡ tid)
      × (start_ms end_ms : ℤ) × (apply_timestamp_policy start_ms end_ms now
          ≡ some (row.window_start, row.window_end))

  -- What a batch has added behind the rows that were there.
  pub Adds : List (InstanceWindowRow F) → List (InstanceWindowRow F) → Type 0
  Adds before after =
      (new : List (InstanceWindowRow F)) × (after ≡ before ++ new) × All IsInBand new

  in_band :
      (iw : InstanceWindow F) (start end : ℤ)
      → apply_timestamp_policy iw.window_start_ms iw.window_end_ms now ≡ some (start, end)
      → IsInBand (record {
        tenant = tid;
        service = service;
        instance_name = inst;
        window_start = start;
        window_end = end;
        usage = iw.usage;
      })
  unfolding IsInBand
  in_band iw start end e = (refl, iw.window_start_ms, iw.window_end_ms, e)

  row_at-IsInBand :
      (iw : InstanceWindow F) (times : Option (ℤ × ℤ)) (row : InstanceWindowRow F)
      → apply_timestamp_policy iw.window_start_ms iw.window_end_ms now ≡ times
      → row_at tid service inst iw.usage times ≡ some row
      → IsInBand row
  unfolding row_at
  row_at-IsInBand iw none row e h = cc h
  row_at-IsInBand iw (some (start, end)) row e h =
      subst IsInBand (some-injective _ _ h) (in_band iw start end e)

  row-IsInBand :
      (iw : Option (InstanceWindow F)) (row : InstanceWindowRow F)
      → instance_window_to_row tid service inst iw now ≡ some row
      → IsInBand row
  unfolding instance_window_to_row
  row-IsInBand none row h = cc h
  row-IsInBand (some iw) row h =
      row_at-IsInBand iw (apply_timestamp_policy iw.window_start_ms iw.window_end_ms now) row refl h

  Adds-none : (taken : List (InstanceWindowRow F)) → Adds taken taken
  unfolding Adds
  Adds-none taken = ([], append_nil taken, tt)

  Adds-row :
      (taken after : List (InstanceWindowRow F)) (row : InstanceWindowRow F)
      → IsInBand row
      → Adds (taken ++ row ∷ []) after
      → Adds taken after
  unfolding Adds
  Adds-row taken after row h (new, same, all) =
      (row ∷ new, same ∙ append_assoc taken (row ∷ []) new, (h, all))

  store_rows-Adds :
      (refuses : List (InstanceWindowRow F) → InstanceWindowRow F → Bool)
      (iws : List (Option (InstanceWindow F))) (taken : List (InstanceWindowRow F))
      → Adds taken (store_rows refuses tid service inst now taken iws)
  unfolding store_rows
  store_rows-Adds refuses [] taken = Adds-none taken
  store_rows-Adds refuses (iw ∷ iws) taken =
      elim (Option-cases (instance_window_to_row tid service inst iw now)) [
        | inl e ↦ rw (e, store_rows) (store_rows-Adds refuses iws taken)
        | inr (row, e) ↦ elim (Bool-cases (refuses taken row)) [
          | inl f ↦ rw (e, store_rows, f) (Adds-none taken)
          | inr f ↦
              rw (e, store_rows, f)
                (Adds-row taken _ row (row-IsInBand iw row e)
                  (store_rows-Adds refuses iws (taken ++ row ∷ [])))
        ]
      ]

  -- Whatever the sink answers, and without one, storing the instance windows of a batch keeps the
  -- rows that were there and adds behind them only rows of the tenant whose times the timestamp
  -- policy gave.
  pub store_instance_windows-Adds :
      (sink : Option (List (InstanceWindowRow F) → InstanceWindowRow F → Bool))
      (taken : List (InstanceWindowRow F)) (iws : List (Option (InstanceWindow F)))
      → Adds taken (store_instance_windows sink tid service inst now taken iws)
  unfolding store_instance_windows
  store_instance_windows-Adds none taken iws = Adds-none taken
  store_instance_windows-Adds (some refuses) taken iws = store_rows-Adds refuses iws taken
