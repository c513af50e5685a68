-- ===== src/Writer/Bounds.antt =====
-- How much a stream holds at most.
use maping.Base.{
  ℕ, ◌≤◌, ◌<◌, Bool, ◌&&◌, List, [], ◌∷◌, ◌++◌, length, length-append, leb, arith, Bool-cases, inl,
  inr,
}
use maping.Writer.{
  Stream, stopped, is_looping, is_draining, start, enqueue, send, give_up, settle, flush_batch,
  final_flush_batch, add, receive, drain, Event, enqueues, sends, gives_up, receives, ticks, closes,
  sees_close, drains, step, run,
}
use maping.Writer.Calls.{enqueue-cases, send-cases, give_up-cases}

module _ {T : Type 0} (has_tenant : T → Bool) (flush_rows : ℕ) where
  -- The channel is within its capacity and the batch below the threshold.
  pub record IsBounded (w : Stream T) : Type 0 where
    pub channel : length w.channel ≤ flush_rows
    pub batch : length w.batch < flush_rows

  enqueue-IsBounded :
      (w : Stream T) (row : T) → IsBounded w → IsBounded (enqueue has_tenant flush_rows w row).0
  enqueue-IsBounded w row v =
      let (waiting, e) = enqueue-cases has_tenant flush_rows w row in
      rw e (record { channel = v.channel; batch = v.batch })

  send-IsBounded :
      (w : Stream T) (n : ℕ) → IsBounded w → IsBounded (send has_tenant flush_rows w n).0
  send-IsBounded w n v = elim (send-cases has_tenant flush_rows w n) [
    | inl e ↦ rw e v
    | inr (waiting, row, room, e) ↦
        let one_more = length-append w.channel (row ∷ []) in
        rw e (record { channel = omega (arith, one_more, room); batch = v.batch })
  ]

  give_up-IsBounded :
      (w : Stream T) (n : ℕ) → IsBounded w → IsBounded (give_up has_tenant flush_rows w n)
  give_up-IsBounded w n v =
      let (waiting, e) = give_up-cases has_tenant flush_rows w n in
      rw e (record { channel = v.channel; batch = v.batch })

  flush-IsBounded :
      (w : Stream T) (ok : Bool)
      → length w.channel ≤ flush_rows
      → 0 < flush_rows
      → IsBounded (flush_batch has_tenant flush_rows w ok)
  unfolding flush_batch settle
  flush-IsBounded w ok h pos_ = record { channel = ground (arith, h); batch = ground (arith, pos_) }

  add-IsBounded :
      (w : Stream T) (row : T) (ok : Bool)
      → IsBounded w
      → IsBounded (add has_tenant flush_rows w row ok)
  unfolding add
  add-IsBounded w row ok v =
      let w' : Stream T = record w { batch = w.batch ++ row ∷ [] } in
      elim (Bool-cases (leb flush_rows (length w'.batch))) [
        | inl e ↦ rw e (flush-IsBounded w' ok v.channel (omega (arith, v.batch)))
        | inr e ↦ rw e (record { channel = v.channel; batch = ground arith })
      ]

  receive-IsBounded :
      (w : Stream T) (ok : Bool) → IsBounded w → IsBounded (receive has_tenant flush_rows w ok)
  unfolding receive
  receive-IsBounded w ok v = received w.channel v.channel
    where
      received :
          (channel : List T)
          → length channel ≤ flush_rows
          → IsBounded (receive has_tenant flush_rows (record w { channel = channel }) ok)
      received [] h = record { channel = h; batch = v.batch }
      received (row ∷ rest) h =
          add-IsBounded (record w { channel = rest }) row ok
            (record { channel = omega (arith, h); batch = v.batch })

  final-IsBounded :
      (w : Stream T) (answer : ℕ → Bool)
      → IsBounded w
      → IsBounded (final_flush_batch has_tenant flush_rows w answer)
  unfolding final_flush_batch settle
  final-IsBounded w answer v = record {
    channel = ground (arith, v.channel);
    batch = ground (arith, v.batch);
  }

  drain-IsBounded :
      (w : Stream T) (ok : Bool) (final : ℕ → Bool)
      → IsBounded w
      → IsBounded (drain has_tenant flush_rows w ok final)
  unfolding drain
  drain-IsBounded w ok final v = drained w.channel (receive-IsBounded w ok v)
    where
      last : IsBounded (final_flush_batch has_tenant flush_rows w final)
      last = final-IsBounded w final v

      drained :
          (channel : List T)
          → IsBounded (receive has_tenant flush_rows w ok)
          → IsBounded (elim channel [
            | [] ↦ record (final_flush_batch has_tenant flush_rows w final) { phase = stopped }
            | row ∷ rest ↦ receive has_tenant flush_rows w ok
          ])
      drained [] r = record { channel = last.channel; batch = last.batch }
      drained (row ∷ rest) r = r

  step-IsBounded :
      (w : Stream T) (e : Event T) → IsBounded w → IsBounded (step has_tenant flush_rows w e)
  unfolding step
  step-IsBounded w (enqueues row) v = enqueue-IsBounded w row v
  step-IsBounded w (sends n) v = send-IsBounded w n v
  step-IsBounded w (gives_up n) v = give_up-IsBounded w n v
  step-IsBounded w (receives ok) v = elim (Bool-cases (is_looping w.phase)) [
    | inl e ↦ rw e (receive-IsBounded w ok v)
    | inr e ↦ rw e v
  ]
  step-IsBounded w (ticks ok) v = elim (Bool-cases (is_looping w.phase)) [
    | inl e ↦ rw e (flush-IsBounded w ok v.channel (omega (arith, v.batch)))
    | inr e ↦ rw e v
  ]
  step-IsBounded w closes v = record { channel = v.channel; batch = v.batch }
  step-IsBounded w sees_close v = elim (Bool-cases (is_looping w.phase && w.closed)) [
    | inl e ↦ rw e (record { channel = v.channel; batch = v.batch })
    | inr e ↦ rw e v
  ]
  step-IsBounded w (drains ok final) v = elim (Bool-cases (is_draining w.phase)) [
    | inl e ↦ rw e (drain-IsBounded w ok final v)
    | inr e ↦ rw e v
  ]

  run_from-IsBounded :
      (w : Stream T) (es : List (Event T))
      → IsBounded w
      → IsBounded (run has_tenant flush_rows w es)
  unfolding run
  run_from-IsBounded w [] v = v
  run_from-IsBounded w (e ∷ es) v =
      run_from-IsBounded (step has_tenant flush_rows w e) es (step-IsBounded w e v)

  -- With a positive threshold, whatever happens in whatever order: the channel never holds more
  -- rows than its capacity, and the batch always fewer than the threshold, also while every insert
  -- fails. So a stalled database costs rows, and memory only within this bound.
  pub run-IsBounded :
      (es : List (Event T))
      → 0 < flush_rows
      → IsBounded (run has_tenant flush_rows (start has_tenant flush_rows) es)
  unfolding start
  run-IsBounded es h =
      run_from-IsBounded (start has_tenant flush_rows) es
        (record { channel = omega arith; batch = omega (arith, h) })
