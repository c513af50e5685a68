-- ===== src/Writer/Drained.antt =====
-- What becomes of the rows of server/internal/storage/writer.go when it is closed.
use maping.Base.{ℕ, zero, suc, ◌≡◌, Bool, true, List, [], ◌∷◌}
use maping.Writer.{Stream, stopped, Event, closes, sees_close, drains}

module _ {T : Type 0} (has_tenant : T → Bool) (flush_rows : ℕ) where
  -- The rounds of `drain` on a channel of n rows, with the answers to the inserts.
  abbrev pub rounds : ℕ → (ℕ → Bool) → (ℕ → Bool) → List (Event T)
  rounds zero answer final = drains true final ∷ []
  rounds (suc n) answer final = drains (answer n) final ∷ rounds n answer final

  -- `Close`, and then the batcher alone until it has returned.
  abbrev pub closing : ℕ → (ℕ → Bool) → (ℕ → Bool) → List (Event T)
  closing n answer final = closes ∷ sees_close ∷ rounds n answer final

  -- The batcher has returned and holds nothing.
  IsDone : Stream T → Type 0
  IsDone w = (w.phase ≡ stopped) × (w.batch ≡ []) × (w.channel ≡ [])
