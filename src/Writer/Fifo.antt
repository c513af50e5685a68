-- ===== src/Writer/Fifo.antt =====
-- The rows of server/internal/storage/writer.go in the order of arrival, through channel, batch and
-- inserts.
use maping.Base.{
  ℕ, ◌≡◌, refl, ap, ◌∙◌, sym, Bool, ◌&&◌, Option, none, some, List, [], ◌∷◌, ◌++◌, length, map, leb,
  ltb, arith, Bool-cases, inl, inr,
}
use maping.Writer.{
  Stream, is_looping, is_draining, send, settle, flush_batch, final_flush_batch, attempts,
  final_flush_attempts, add, receive, drain, Event, enqueues, sends, gives_up, receives, ticks,
  closes, sees_close, drains, step, run,
}
use maping.Writer.Calls.{enqueue-cases, send-cases, give_up-cases}

pub append_assoc : {T : Type 0} → (xs ys zs : List T) → (xs ++ ys) ++ zs ≡ xs ++ (ys ++ zs)
append_assoc [] ys zs = refl
append_assoc (x ∷ xs) ys zs = ap (λ r. x ∷ r) (append_assoc xs ys zs)

pub append-nil : {T : Type 0} → (xs : List T) → xs ++ [] ≡ xs
append-nil [] = refl
append-nil (x ∷ xs) = ap (λ r. x ∷ r) (append-nil xs)

-- The rows of what was settled.
abbrev pub rows_of : {T : Type 0} → List (T × Bool) → List T
rows_of [] = []
rows_of ((row, ok) ∷ rest) = row ∷ rows_of rest

rows_of-settle :
    {T : Type 0}
    → (xs : List (T × Bool)) (rows : List T) (ok : Bool)
    → rows_of (xs ++ map (λ (row : T). (row, ok)) rows) ≡ rows_of xs ++ rows
rows_of-settle [] [] ok = refl
rows_of-settle [] (r ∷ rows) ok = ap (λ k. r ∷ k) (rows_of-settle [] rows ok)
rows_of-settle (x ∷ xs) rows ok = ap (λ k. x.0 ∷ k) (rows_of-settle xs rows ok)

module _ {T : Type 0} (has_tenant : T → Bool) (flush_rows : ℕ) where
  -- All rows of a stream, the first to arrive first.
  abbrev pub history : Stream T → List T
  history w = rows_of w.settled ++ (w.batch ++ w.channel)

  settle-history :
      (w : Stream T) (ok : Bool) → history (settle has_tenant flush_rows w ok) ≡ history w
  unfolding settle
  settle-history w ok =
      ap (λ r. r ++ w.channel) (rows_of-settle w.settled w.batch ok)
      ∙ append_assoc (rows_of w.settled) w.batch w.channel

  flush-history :
      (w : Stream T) (ok : Bool) → history (flush_batch has_tenant flush_rows w ok) ≡ history w
  unfolding flush_batch
  flush-history w ok = elim (Bool-cases (ltb 0 (length w.batch))) [
    | inl e ↦ rw e (settle-history w ok)
    | inr e ↦ rw e refl
  ]

  add-history :
      (w : Stream T) (row : T) (ok : Bool)
      → history (add has_tenant flush_rows w row ok)
        ≡ rows_of w.settled ++ (w.batch ++ (row ∷ w.channel))
  unfolding add
  add-history w row ok =
      let w' : Stream T = record w { batch = w.batch ++ row ∷ [] } in
      let same = ap (λ r. rows_of w.settled ++ r) (append_assoc w.batch (row ∷ []) w.channel) in
      elim (Bool-cases (leb flush_rows (length w'.batch))) [
        | inl e ↦ rw e (flush-history w' ok ∙ same)
        | inr e ↦ rw e same
      ]

  receive-history :
      (w : Stream T) (ok : Bool) → history (receive has_tenant flush_rows w ok) ≡ history w
  unfolding receive
  receive-history w ok = received w.channel refl
    where
      received :
          (channel : List T)
          → channel ≡ w.channel
          → history (receive has_tenant flush_rows (record w { channel = channel }) ok)
            ≡ history (record w { channel = channel })
      received [] e = refl
      received (row ∷ rest) e = add-history (record w { channel = rest }) row ok

  pub add-channel :
      (w : Stream T) (row : T) (ok : Bool)
      → (add has_tenant flush_rows w row ok).channel ≡ w.channel
  unfolding add flush_batch settle
  add-channel w row ok = ground arith

  final-history :
      (w : Stream T) (answer : ℕ → Bool)
      → history (final_flush_batch has_tenant flush_rows w answer) ≡ history w
  unfolding final_flush_batch
  final-history w answer = elim (Bool-cases (ltb 0 (length w.batch))) [
    | inl e ↦ rw e (settle-history w (attempts has_tenant flush_rows final_flush_attempts answer))
    | inr e ↦ rw e refl
  ]

  -- The final flush leaves an empty batch, and the channel alone.
  pub final-empties :
      (w : Stream T) (answer : ℕ → Bool)
      → let w' = final_flush_batch has_tenant flush_rows w answer in
        (w'.batch ≡ []) × (w'.channel ≡ w.channel)
  unfolding final_flush_batch settle
  final-empties w answer = emptied w.batch
    where
      emptied :
          (batch : List T)
          → let w' = final_flush_batch has_tenant flush_rows (record w { batch = batch }) answer in
            (w'.batch ≡ []) × (w'.channel ≡ w.channel)
      emptied [] = (refl, refl)
      emptied (row ∷ rows) = (ground arith, ground arith)

  drain-history :
      (w : Stream T) (ok : Bool) (final : ℕ → Bool)
      → history (drain has_tenant flush_rows w ok final) ≡ history w
  unfolding drain
  drain-history w ok final = drained w.channel
    where
      drained :
          (channel : List T)
          → history (drain has_tenant flush_rows (record w { channel = channel }) ok final)
            ≡ history (record w { channel = channel })
      drained [] = final-history (record w { channel = [] }) final
      drained (row ∷ rest) = receive-history (record w { channel = row ∷ rest }) ok

  abbrev pub row_of_some : Option T → List T
  row_of_some none = []
  row_of_some (some row) = row ∷ []

  -- The row of a call of `Enqueue` that returns nil at an event.
  abbrev pub new_rows : Stream T → Event T → List T
  new_rows w (enqueues row) = []
  new_rows w (sends n) = row_of_some (send has_tenant flush_rows w n).1
  new_rows w (gives_up n) = []
  new_rows w (receives ok) = []
  new_rows w (ticks ok) = []
  new_rows w closes = []
  new_rows w sees_close = []
  new_rows w (drains ok final) = []

  -- The rows of the calls that returned nil, in order.
  abbrev pub arrivals : Stream T → List (Event T) → List T
  arrivals w [] = []
  arrivals w (e ∷ es) = new_rows w e ++ arrivals (step has_tenant flush_rows w e) es

  send-history :
      (w : Stream T) (n : ℕ)
      → history (send has_tenant flush_rows w n).0
        ≡ history w ++ row_of_some (send has_tenant flush_rows w n).1
  send-history w n = elim (send-cases has_tenant flush_rows w n) [
    | inl e ↦ rw e (sym (append-nil (history w)))
    | inr (waiting, row, room, e) ↦ rw e (
        ap (λ r. rows_of w.settled ++ r) (sym (append_assoc w.batch w.channel (row ∷ [])))
        ∙ sym (append_assoc (rows_of w.settled) (w.batch ++ w.channel) (row ∷ [])))
  ]

  -- A step that brings no row.
  kept : {h h' : List T} → h' ≡ h → h' ≡ h ++ []
  kept {h} e = e ∙ sym (append-nil h)

  step-history :
      (w : Stream T) (e : Event T)
      → history (step has_tenant flush_rows w e) ≡ history w ++ new_rows w e
  unfolding step
  step-history w (enqueues row) =
      let (waiting, e) = enqueue-cases has_tenant flush_rows w row in
      rw e (sym (append-nil (history w)))
  step-history w (sends n) = send-history w n
  step-history w (gives_up n) =
      let (waiting, e) = give_up-cases has_tenant flush_rows w n in
      rw e (sym (append-nil (history w)))
  step-history w (receives ok) = elim (Bool-cases (is_looping w.phase)) [
    | inl e ↦ rw e (kept (receive-history w ok))
    | inr e ↦ rw e (kept refl)
  ]
  step-history w (ticks ok) = elim (Bool-cases (is_looping w.phase)) [
    | inl e ↦ rw e (kept (flush-history w ok))
    | inr e ↦ rw e (kept refl)
  ]
  step-history w closes = kept refl
  step-history w sees_close = elim (Bool-cases (is_looping w.phase && w.closed)) [
    | inl e ↦ rw e (kept refl)
    | inr e ↦ rw e (kept refl)
  ]
  step-history w (drains ok final) = elim (Bool-cases (is_draining w.phase)) [
    | inl e ↦ rw e (kept (drain-history w ok final))
    | inr e ↦ rw e (kept refl)
  ]

  -- Nothing is lost, doubled or moved: what a stream holds and has settled is what it held and had
  -- settled before, and then the rows of the calls that returned nil.
  pub run-history :
      (w : Stream T) (es : List (Event T))
      → history (run has_tenant flush_rows w es) ≡ history w ++ arrivals w es
  unfolding run
  run-history w [] = sym (append-nil (history w))
  run-history w (e ∷ es) =
      run-history (step has_tenant flush_rows w e) es
      ∙ ap (λ r. r ++ arrivals (step has_tenant flush_rows w e) es) (step-history w e)
      ∙ append_assoc (history w) (new_rows w e) (arrivals (step has_tenant flush_rows w e) es)
