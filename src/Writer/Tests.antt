-- ===== src/Writer/Tests.antt =====
-- The batcher at concrete inputs: rows are numbers, zero has no tenant, and three rows make a batch.
use maping.Base.{ℕ, ◌≡◌, refl, Bool, true, false, List, [], ◌∷◌, ltb, arith}
use maping.Writer.{
  Event, enqueues, sends, gives_up, receives, ticks, closes, sees_close, drains, run, step, start,
  enqueue, send, pick, drain, final_flush_batch, is_looping, is_draining,
}
use maping.Writer.Stopped.{late, is_stopped}
use maping.Writer.Bounds.{IsBounded, run-IsBounded}

abbrev some_tenant : ℕ → Bool
some_tenant n = ltb 0 n

-- The call of 9 is overtaken by that of 5, and gives up at the close.
abbrev events : List (Event ℕ)
events =
    enqueues 7
    ∷ enqueues 0
    ∷ sends 0
    ∷ receives true
    ∷ enqueues 8
    ∷ sends 0
    ∷ ticks false
    ∷ enqueues 9
    ∷ enqueues 5
    ∷ sends 1
    ∷ receives true
    ∷ closes
    ∷ gives_up 0
    ∷ []

-- A call that has passed the first select when the writer is closed, and sends when the batcher has
-- returned.
abbrev straggler : List (Event ℕ)
straggler = enqueues 7 ∷ closes ∷ sees_close ∷ drains true (λ n. true) ∷ sends 0 ∷ []

-- The call of Enqueue returned nil, and its row is in a channel that nobody reads any more.
row_lost : late some_tenant 3 (start some_tenant 3) straggler ≡ 7 ∷ []
unfolding start step enqueue send pick drain final_flush_batch is_looping is_draining is_stopped
row_lost = refl

run-IsBounded_example : IsBounded some_tenant 3 (run some_tenant 3 (start some_tenant 3) events)
run-IsBounded_example = run-IsBounded some_tenant 3 events (omega arith)
