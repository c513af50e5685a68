-- ===== src/Writer.antt =====
-- server/internal/storage/writer.go: the batcher of rows. Its two streams run the same code on two
-- types of row, here any type; a stream is the calls of Enqueue under way, its channel, its batch,
-- and what became of each row. Whether an insert succeeds is the database's answer, an argument.
mod Calls
pub mod Fifo
mod Stopped
pub mod Drained
pub mod Bounds
mod Tests
use maping.Base.{
  ℕ, zero, suc, ◌+◌, Bool, true, false, Option, none, some, List, [], ◌∷◌, ◌++◌, length, map, leb,
  ltb, ◌&&◌, if◌then◌else◌,
}

unfoldable pub final_flush_attempts : ℕ
final_flush_attempts = 3

-- Where the goroutine of `run` is: in its loop, in `drain`, or returned.
pub data Phase : Type 0 where
  looping draining stopped : Phase

unfoldable pub is_looping : Phase → Bool
is_looping looping = true
is_looping draining = false
is_looping stopped = false

unfoldable pub is_draining : Phase → Bool
is_draining looping = false
is_draining draining = true
is_draining stopped = false

pub record Stream (T : Type 0) : Type 0 where
  -- The rows of the calls of `Enqueue` that are between its two selects.
  pub waiting : List T
  pub channel : List T
  pub batch : List T
  pub closed : Bool
  pub phase : Phase
  -- Each row that has left the batch, with whether it was inserted; else it was dropped.
  pub settled : List (T × Bool)

-- Where a call of `Enqueue` is after its first select: it waits in the second, or has returned.
pub data Outcome : Type 0 where
  waits empty_tenant writer_closed : Outcome

-- What happens to a stream. A call of `Enqueue` is two steps, and those of other calls and of `run`
-- may come in between: its guard and first select (`enqueues`), and the case that its second select
-- takes, the send (`sends`) or the closed channel (`gives_up`), of the call at a place in `waiting`.
-- A round of `run` receives a row, flushes on a tick or sees that the writer is closed, and a round
-- of `drain` receives a row or, on an empty channel, is the last. An event that is not possible in
-- a state changes nothing.
pub data Event (T : Type 0) : Type 0 where
  enqueues : T → Event T
  sends : ℕ → Event T
  gives_up : ℕ → Event T
  receives : Bool → Event T
  ticks : Bool → Event T
  closes : Event T
  sees_close : Event T
  drains : Bool → (ℕ → Bool) → Event T

-- The element at a place, and the list without it.
unfoldable pub pick : {T : Type 0} → ℕ → List T → Option (T × List T)
pick n [] = none
pick zero (x ∷ xs) = some (x, xs)
pick (suc n) (x ∷ xs) = elim (pick n xs) [ none ↦ none | some (y, rest) ↦ some (y, x ∷ rest) ]

module _ {T : Type 0} (has_tenant : T → Bool) (flush_rows : ℕ) where
  unfoldable pub start : Stream T
  start = record {
    waiting = [];
    channel = [];
    batch = [];
    closed = false;
    phase = looping;
    settled = [];
  }

  unfoldable pub enqueue : Stream T → T → Stream T × Outcome
  enqueue w row =
      if has_tenant row
      then if w.closed
        then (w, writer_closed)
        else (record w { waiting = w.waiting ++ row ∷ [] }, waits)
      else (w, empty_tenant)

  -- The call sends, where the channel has room, and returns nil; with its row.
  unfoldable pub send : Stream T → ℕ → Stream T × Option T
  send w n = elim (pick n w.waiting) [
    | none ↦ (w, none)
    | some (row, rest) ↦
        if ltb (length w.channel) flush_rows
        then (record w { waiting = rest; channel = w.channel ++ row ∷ [] }, some row)
        else (w, none)
  ]

  -- The call finds the writer closed, and returns ErrWriterClosed.
  unfoldable pub give_up : Stream T → ℕ → Stream T
  give_up w n = elim (pick n w.waiting) [
    | none ↦ w
    | some (row, rest) ↦ if w.closed then record w { waiting = rest } else w
  ]

  unfoldable pub settle : Stream T → Bool → Stream T
  settle w ok = record w { batch = []; settled = w.settled ++ map (λ (row : T). (row, ok)) w.batch }

  -- On an empty batch `settle` changes nothing either: there is no row to settle.
  unfoldable pub flush_batch : Stream T → Bool → Stream T
  flush_batch w ok = if ltb 0 (length w.batch) then settle w ok else w

  -- Whether one of the attempts that are left succeeds, given the answer to each.
  unfoldable pub attempts : ℕ → (ℕ → Bool) → Bool
  attempts zero answer = false
  attempts (suc n) answer = let later = attempts n answer in if answer n then true else later

  unfoldable pub final_flush_batch : Stream T → (ℕ → Bool) → Stream T
  final_flush_batch w answer =
      if ltb 0 (length w.batch) then settle w (attempts final_flush_attempts answer) else w

  -- A row that was received from the channel.
  unfoldable pub add : Stream T → T → Bool → Stream T
  add w row ok =
      let w' = record w { batch = w.batch ++ row ∷ [] } in
      if leb flush_rows (length w'.batch) then flush_batch w' ok else w'

  unfoldable pub receive : Stream T → Bool → Stream T
  receive w ok = elim w.channel [ [] ↦ w | row ∷ rest ↦ add (record w { channel = rest }) row ok ]

  -- A round of `drain`.
  unfoldable pub drain : Stream T → Bool → (ℕ → Bool) → Stream T
  drain w ok final = elim w.channel [
    | [] ↦ record (final_flush_batch w final) { phase = stopped }
    | row ∷ rest ↦ receive w ok
  ]

  unfoldable pub step : Stream T → Event T → Stream T
  step w (enqueues row) = (enqueue w row).0
  step w (sends n) = (send w n).0
  step w (gives_up n) = give_up w n
  step w (receives ok) = if is_looping w.phase then receive w ok else w
  step w (ticks ok) = if is_looping w.phase then flush_batch w ok else w
  step w closes = record w { closed = true }
  step w sees_close = if is_looping w.phase && w.closed then record w { phase = draining } else w
  step w (drains ok final) = if is_draining w.phase then drain w ok final else w

  unfoldable pub run : Stream T → List (Event T) → Stream T
  run w [] = w
  run w (e ∷ es) = run (step w e) es
