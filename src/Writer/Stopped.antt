-- ===== src/Writer/Stopped.antt =====
-- After the batcher of server/internal/storage/writer.go has returned: what it has left, and what
-- comes late.
use maping.Base.{
  ℕ, ◌≡◌, ◌≢◌, refl, ap, ◌∙◌, sym, Bool, true, false, ◌&&◌, List, [], ◌∷◌, ◌++◌, if◌then◌else◌,
  arith, Bool-cases, inl, inr,
}
use maping.Writer.{
  Stream, Phase, looping, draining, stopped, is_looping, is_draining, send, settle, flush_batch,
  add, receive, drain, Event, enqueues, sends, gives_up, receives, ticks, closes, sees_close,
  drains, step, run,
}
use maping.Writer.Calls.{enqueue-cases, send-cases, give_up-cases}
use maping.Writer.Fifo.{new_rows, row_of_some, append-nil, append_assoc, final-empties}

unfoldable pub is_stopped : Phase → Bool
is_stopped looping = false
is_stopped draining = false
is_stopped stopped = true

module _ {T : Type 0} (has_tenant : T → Bool) (flush_rows : ℕ) where
  -- The rows of the calls that returned nil after the goroutine of `run` had returned.
  abbrev pub late : Stream T → List (Event T) → List T
  late w [] = []
  late w (e ∷ es) =
      let rest = late (step has_tenant flush_rows w e) es in
      if is_stopped w.phase then new_rows has_tenant flush_rows w e ++ rest else rest

  pub receive-phase :
      (w : Stream T) (ok : Bool) → (receive has_tenant flush_rows w ok).phase ≡ w.phase
  unfolding receive add flush_batch settle
  receive-phase w ok = received w.channel
    where
      received :
          (channel : List T)
          → (receive has_tenant flush_rows (record w { channel = channel }) ok).phase ≡ w.phase
      received [] = refl
      received (row ∷ rest) = ground arith

  flush-phase :
      (w : Stream T) (ok : Bool) → (flush_batch has_tenant flush_rows w ok).phase ≡ w.phase
  unfolding flush_batch settle
  flush-phase w ok = ground arith

  -- When `run` has returned, the batch is empty, and the channel keeps what comes late.
  pub record Left (w : Stream T) (rows : List T) : Type 0 where
    pub before : w.phase ≢ stopped → rows ≡ []
    pub batch : w.phase ≡ stopped → w.batch ≡ []
    pub channel : w.phase ≡ stopped → w.channel ≡ rows

  sent-fields :
      (w : Stream T) (n : ℕ)
      → let r = send has_tenant flush_rows w n in
        (r.0.phase ≡ w.phase)
        × (r.0.batch ≡ w.batch)
        × (r.0.channel ≡ w.channel ++ row_of_some has_tenant flush_rows r.1)
  sent-fields w n = elim (send-cases has_tenant flush_rows w n) [
    | inl e ↦ rw e (refl, refl, sym (append-nil w.channel))
    | inr (waiting, row, room, e) ↦ rw e (refl, refl, refl)
  ]

  -- A step when `run` has returned.
  stopped-step :
      (w : Stream T) (e : Event T)
      → w.phase ≡ stopped
      → let w' = step has_tenant flush_rows w e in
        (w'.phase ≡ stopped)
        × (w'.batch ≡ w.batch)
        × (w'.channel ≡ w.channel ++ new_rows has_tenant flush_rows w e)
  unfolding step is_looping is_draining
  stopped-step w (enqueues row) h =
      let (waiting, e) = enqueue-cases has_tenant flush_rows w row in
      rw e (h, refl, sym (append-nil w.channel))
  stopped-step w (sends n) h =
      let (phase, batch, channel) = sent-fields w n in (phase ∙ h, batch, channel)
  stopped-step w (gives_up n) h =
      let (waiting, e) = give_up-cases has_tenant flush_rows w n in
      rw e (h, refl, sym (append-nil w.channel))
  stopped-step w (receives ok) h =
      let off : is_looping w.phase ≡ false = ap is_looping h in
      rw off (h, refl, sym (append-nil w.channel))
  stopped-step w (ticks ok) h =
      let off : is_looping w.phase ≡ false = ap is_looping h in
      rw off (h, refl, sym (append-nil w.channel))
  stopped-step w closes h = (h, refl, sym (append-nil w.channel))
  stopped-step w sees_close h =
      let off : is_looping w.phase ≡ false = ap is_looping h in
      rw off (h, refl, sym (append-nil w.channel))
  stopped-step w (drains ok final) h =
      let off : is_draining w.phase ≡ false = ap is_draining h in
      rw off (h, refl, sym (append-nil w.channel))

  drain-stops :
      (w : Stream T) (ok : Bool) (final : ℕ → Bool)
      → w.phase ≢ stopped
      → let w' = drain has_tenant flush_rows w ok final in
        w'.phase ≡ stopped → (w'.batch ≡ []) × (w'.channel ≡ [])
  unfolding drain
  drain-stops w ok final n = drained w.channel
    where
      drained :
          (channel : List T)
          → let w' = drain has_tenant flush_rows (record w { channel = channel }) ok final in
            w'.phase ≡ stopped → (w'.batch ≡ []) × (w'.channel ≡ [])
      drained [] s = final-empties has_tenant flush_rows (record w { channel = [] }) final
      drained (row ∷ rest) s =
          absurd (n (sym (receive-phase (record w { channel = row ∷ rest }) ok) ∙ s))

  -- The step at which `run` returns leaves nothing behind.
  running-step :
      (w : Stream T) (e : Event T)
      → w.phase ≢ stopped
      → let w' = step has_tenant flush_rows w e in
        w'.phase ≡ stopped → (w'.batch ≡ []) × (w'.channel ≡ [])
  unfolding step
  running-step w (enqueues row) n s =
      let (waiting, e) = enqueue-cases has_tenant flush_rows w row in
      absurd (n (sym (ap (λ (v : Stream T). v.phase) e) ∙ s))
  running-step w (sends i) n s = absurd (n (sym (sent-fields w i).0 ∙ s))
  running-step w (gives_up i) n s =
      let (waiting, e) = give_up-cases has_tenant flush_rows w i in
      absurd (n (sym (ap (λ (v : Stream T). v.phase) e) ∙ s))
  running-step w (receives ok) n s = elim (Bool-cases (is_looping w.phase)) [
    | inl e ↦ absurd (n (sym (receive-phase w ok) ∙ (rw (e, step) at s)))
    | inr e ↦ absurd (n (rw (e, step) at s))
  ]
  running-step w (ticks ok) n s = elim (Bool-cases (is_looping w.phase)) [
    | inl e ↦ absurd (n (sym (flush-phase w ok) ∙ (rw (e, step) at s)))
    | inr e ↦ absurd (n (rw (e, step) at s))
  ]
  running-step w closes n s = absurd (n s)
  running-step w sees_close n s = elim (Bool-cases (is_looping w.phase && w.closed)) [
    | inl e ↦ absurd (drains-on (rw (e, step) at s))
    | inr e ↦ absurd (n (rw (e, step) at s))
  ]
    where
      drains-on : draining ≢ stopped
      drains-on e = cc e
  running-step w (drains ok final) n s = elim (Bool-cases (is_draining w.phase)) [
    | inl e ↦ rw e (drain-stops w ok final n (rw (e, step) at s))
    | inr e ↦ absurd (n (rw (e, step) at s))
  ]

  pub stopped-true : (p : Phase) → is_stopped p ≡ true → p ≡ stopped
  unfolding is_stopped
  stopped-true looping e = cc e
  stopped-true draining e = cc e
  stopped-true stopped e = refl

  pub stopped-false : (p : Phase) → is_stopped p ≡ false → p ≢ stopped
  unfolding is_stopped
  stopped-false looping e s = cc s
  stopped-false draining e s = cc s
  stopped-false stopped e s = cc e

  pub run-Left :
      (w : Stream T) (es : List (Event T)) (rows : List T)
      → Left w rows
      → Left (run has_tenant flush_rows w es) (rows ++ late w es)
  unfolding run
  run-Left w [] rows v = rw (append-nil rows) v
  run-Left w (e ∷ es) rows v =
      let w' = step has_tenant flush_rows w e in
      let new = new_rows has_tenant flush_rows w e in
      elim (Bool-cases (is_stopped w.phase)) [
        | inl c ↦
            let s = stopped-true w.phase c in
            let (phase, batch, channel) = stopped-step w e s in
            rw (c, sym (append_assoc rows new (late w' es)))
              (run-Left w' es (rows ++ new) (record {
                before = λ n. absurd (n phase);
                batch = λ _. batch ∙ v.batch s;
                channel = λ _. channel ∙ ap (λ r. r ++ new) (v.channel s);
              }))
        | inr c ↦
            let n = stopped-false w.phase c in
            rw c (
              run-Left w' es rows (record {
                before = λ _. v.before n;
                batch = λ s. (running-step w e n s).0;
                channel = λ s. (running-step w e n s).1 ∙ sym (v.before n);
              }))
      ]
