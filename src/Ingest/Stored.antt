-- ===== src/Ingest/Stored.antt =====
-- What a batch stores, and what it counts as rejected.
use maping.Base.{
  ◌≢◌, ℕ, ◌+◌, ◌≡◌, refl, ap, ◌∙◌, sym, Bool, true, false, Option, none, some, List, [], ◌∷◌, ◌++◌,
  length, map, Selects, selected, keeps, leaves, if◌then◌else◌, arith, Bool-cases, Option-cases,
  inl, inr, ◌⊎◌, not,
}
use maping.Base.Int.{ℤ, ◌-ℤ◌}
use maping.Base.Bytes.{Bytes, is_empty}
use maping.Cardinality
use maping.Cardinality.{Cardinality}
use maping.Recorder.{Summary}
use maping.Ingest.{
  status_class_name, Row, Store, Batch, Upload, Response, Tenancy, from_milli, summary_to_row,
  enqueue, guarded, store_summary, store_summaries, payload_within_limit, upload, authenticate,
  batch_of, unauthenticated, resource_exhausted, accepted,
}
use maping.Ingest.Skew.{passes, apply_timestamp_policy_lem}

-- The row of a summary in a batch.
abbrev pub row_of : Batch → Summary → Row
row_of b s =
    summary_to_row b.tid b.service b.instance_ b.deploy s (from_milli s.window_start_ms)
      (from_milli s.window_end_ms)

-- The window's end of a summary is in band.
abbrev pub InBand : Batch → Summary → Type 0
InBand b s = passes (b.now -ℤ from_milli s.window_end_ms) ≡ true

append-one : (xs : List Row) (x : Row) (ys : List Row) → (xs ++ x ∷ []) ++ ys ≡ xs ++ x ∷ ys
append-one [] x ys = refl
append-one (y ∷ xs) x ys = ap (λ (r : List Row). y ∷ r) (append-one xs x ys)

append-nil : (xs : List Row) → xs ++ [] ≡ xs
append-nil [] = refl
append-nil (x ∷ xs) = ap (λ (r : List Row). x ∷ r) (append-nil xs)

true-ne-false : true ≢ false
true-ne-false e = cc e

module _ (refuses : List Row → Row → Bool) where
  guarded-rows : (st : Store) (b : Batch) (s : Summary) → (guarded refuses st b s).0.rows ≡ st.rows
  unfolding guarded
  guarded-rows st b s = elim (Option-cases st.guard) [
    | inl e ↦ rw (e, guarded) refl
    | inr (c, e) ↦ rw (e, guarded) refl
  ]

  -- Why a summary is rejected: its window's end is out of band, or the guard refuses its series in
  -- some state, or the sink refuses its row behind some rows.
  pub Rejected : Batch → Summary → Type 0
  Rejected b s =
      (passes (b.now -ℤ from_milli s.window_end_ms) ≡ false)
      ⊎ ((c : Cardinality) × ((Cardinality.allow c b.tid
              (Cardinality.series_key s.method s.route_template (status_class_name s.status_class))
              b.card_cap b.guard_now).1
            ≡ false))
      ⊎ ((rows : List Row) × (refuses rows (row_of b s) ≡ true))

  guarded-Rejected :
      (st : Store) (b : Batch) (s : Summary) → (guarded refuses st b s).1 ≡ false → Rejected b s
  unfolding guarded Rejected
  guarded-Rejected st b s = stopped st.guard
    where
      stopped :
          (guard : Option Cardinality)
          → (guarded refuses (record st { guard = guard }) b s).1 ≡ false
          → Rejected b s
      stopped none e = absurd (true-ne-false e)
      stopped (some c) e = inr (inl (c, e))

  -- One summary: stored in its row behind the others, and counted as stored; or not stored.
  Outcome : Store → Batch → Summary → Store × Bool → Type 0
  Outcome st b s (st', ok) =
      ((ok ≡ true)
        × (st'.rows ≡ st.rows ++ row_of b s ∷ [])
        × (passes (b.now -ℤ from_milli s.window_end_ms) ≡ true))
      ⊎ ((ok ≡ false) × (st'.rows ≡ st.rows) × Rejected b s)

  enqueue-Outcome :
      (st st' : Store) (b : Batch) (s : Summary)
      → st'.rows ≡ st.rows
      → passes (b.now -ℤ from_milli s.window_end_ms) ≡ true
      → Outcome st b s (enqueue refuses st' (row_of b s))
  unfolding enqueue Outcome Rejected
  enqueue-Outcome st st' b s same h = elim (Bool-cases (refuses st'.rows (row_of b s))) [
    | inl e ↦ rw e (inr (refl, same, inr (inr (st'.rows, e))))
    | inr e ↦ rw e (inl (refl, ap (λ (r : List Row). r ++ row_of b s ∷ []) same, h))
  ]

  store_summary-Outcome :
      (st : Store) (b : Batch) (s : Summary) → Outcome st b s (store_summary refuses st b s)
  unfolding store_summary Outcome Rejected
  store_summary-Outcome st b s =
      let policy = apply_timestamp_policy_lem s.window_start_ms s.window_end_ms b.now in
      elim (Bool-cases (passes (b.now -ℤ from_milli s.window_end_ms))) [
        | inl e ↦
            let in_band = rw e at policy in
            rw (in_band, store_summary)
              (elim (Bool-cases (guarded refuses st b s).1) [
                | inl pass ↦
                    rw pass
                      (enqueue-Outcome st (guarded refuses st b s).0 b s (guarded-rows st b s) e)
                | inr stop ↦ rw stop (inr (refl, guarded-rows st b s, guarded-Rejected st b s stop))
              ])
        | inr e ↦ let out = rw e at policy in rw (out, store_summary) (inr (refl, refl, inl e))
      ]

  -- A batch of summaries, whatever the guard and the sink answer: some of the summaries, each with
  -- its window's end in band, are stored as their rows for the batch's tenant, each once and in
  -- order, behind the rows that were there; and the others, each of them out of band or refused by the
  -- guard or by the sink, are counted as rejected.
  pub store_summaries_lem :
      (st : Store) (b : Batch) (ss : List Summary)
      → (stored : List Summary) × Selects (InBand b) (Rejected b) ss stored
        × ((store_summaries refuses st b ss).0.rows ≡ st.rows ++ map (row_of b) stored)
        × (length stored + (store_summaries refuses st b ss).1 ≡ length ss)
  unfolding store_summaries Outcome
  store_summaries_lem st b [] = ([], selected, sym (append-nil st.rows), refl)
  store_summaries_lem st b (s ∷ ss) =
      let (stored, chosen, rows, count) =
        store_summaries_lem (store_summary refuses st b s).0 b ss in
      let new = map (row_of b) stored in
      elim (store_summary-Outcome st b s) [
        | inl (ok, kept, h) ↦ (
          s ∷ stored,
          keeps h chosen,
          rows ∙ ap (λ (r : List Row). r ++ new) kept ∙ append-one st.rows (row_of b s) new,
          rw ok (omega (arith, count)),
        )
        | inr (no_, same, why) ↦ (
          stored,
          leaves why chosen,
          rows ∙ ap (λ (r : List Row). r ++ new) same,
          rw no_ (omega (arith, count)),
        )
      ]

  module _ (trim_space : Bytes → Bytes) (resolver : Bytes → Option Bytes)
      (tenancy : Bytes → Tenancy) where
    authenticate-tenant :
        (u : Upload) (tid : Bytes)
        → authenticate trim_space resolver u.headers ≡ some tid
        → is_empty tid ≡ false
    unfolding authenticate
    authenticate-tenant u tid e = ground arith

    -- `Upload` once the tenant is known.
    abbrev upload_for : Store → Upload → Bytes → ℤ → ℕ → Store × Response
    upload_for st u tid now guard_now =
        let b =
          batch_of refuses trim_space resolver tenancy u tid (tenancy tid).cap now guard_now in
        let (st', rejected) = store_summaries refuses st b u.summaries in
        if not (tenancy tid).allowed
        then (st, resource_exhausted)
        else if not (payload_within_limit (tenancy tid).payload_limit u.size)
        then (st, resource_exhausted)
        else (st', accepted rejected)

    upload-some :
        (st : Store) (u : Upload) (tid : Bytes) (now : ℤ) (guard_now : ℕ)
        → authenticate trim_space resolver u.headers ≡ some tid
        → upload refuses trim_space resolver tenancy st u now guard_now
          ≡ upload_for st u tid now guard_now
    unfolding upload
    upload-some st u tid now guard_now e = rw (e, upload) refl

    upload-none :
        (st : Store) (u : Upload) (now : ℤ) (guard_now : ℕ)
        → authenticate trim_space resolver u.headers ≡ none
        → upload refuses trim_space resolver tenancy st u now guard_now ≡ (st, unauthenticated)
    unfolding upload
    upload-none st u now guard_now e = rw (e, upload) refl

    upload_for-cases :
        (st : Store) (u : Upload) (tid : Bytes) (now : ℤ) (guard_now : ℕ)
        → let b =
            batch_of refuses trim_space resolver tenancy u tid (tenancy tid).cap now guard_now in
          let done = store_summaries refuses st b u.summaries in
          (upload_for st u tid now guard_now ≡ (st, resource_exhausted))
          ⊎ (upload_for st u tid now guard_now ≡ (done.0, accepted done.1))
    upload_for-cases st u tid now guard_now = elim (Bool-cases (tenancy tid).allowed) [
      | inr e ↦ inl (rw e refl)
      | inl e ↦ elim (Bool-cases (payload_within_limit (tenancy tid).payload_limit u.size)) [
        | inr big ↦ inl (rw (e, big) refl)
        | inl fits ↦ inr (rw (e, fits) refl)
      ]
    ]

    -- An upload, whatever its headers, its summaries and the answers of the dependencies. It is
    -- turned away with an error and changes nothing; or its key resolves to a tenant that is not
    -- empty, some of its summaries, each with its window's end in band, are stored as their rows
    -- for that tenant, each once and in order, and the response has the number of the others, each
    -- of which is out of band or is refused by the guard or by the sink in some state of theirs.
    pub upload_lem :
        (st : Store) (u : Upload) (now : ℤ) (guard_now : ℕ)
        → let r = upload refuses trim_space resolver tenancy st u now guard_now in
          ((r ≡ (st, unauthenticated)) ⊎ (r ≡ (st, resource_exhausted)))
          ⊎ ((tid : Bytes) × (n : ℕ) × (stored : List Summary) × (let b =
                  batch_of refuses trim_space resolver tenancy u tid
                    (tenancy tid).cap
                    now
                    guard_now in
                (authenticate trim_space resolver u.headers ≡ some tid)
                × (is_empty tid ≡ false)
                × (r.1 ≡ accepted n)
                × Selects (InBand b) (Rejected b) u.summaries stored
                × (r.0.rows ≡ st.rows ++ map (row_of b) stored)
                × (length stored + n ≡ length u.summaries)))
    upload_lem st u now guard_now =
        elim (Option-cases (authenticate trim_space resolver u.headers)) [
          | inl e ↦ inl (inl (upload-none st u now guard_now e))
          | inr (tid, e) ↦
              let same = upload-some st u tid now guard_now e in
              let b =
                batch_of refuses trim_space resolver tenancy u tid (tenancy tid).cap now
                  guard_now in
              elim (upload_for-cases st u tid now guard_now) [
                | inl stop ↦ inl (inr (same ∙ stop))
                | inr done ↦
                    let (stored, chosen, rows, count) = store_summaries_lem st b u.summaries in
                    let all = same ∙ done in
                    inr (
                      tid,
                      (store_summaries refuses st b u.summaries).1,
                      stored,
                      (
                        e,
                        authenticate-tenant u tid e,
                        ap (λ (r : Store × Response). r.1) all,
                        chosen,
                        ap (λ (r : Store × Response). r.0.rows) all ∙ rows,
                        count,
                      ),
                    )
              ]
        ]
