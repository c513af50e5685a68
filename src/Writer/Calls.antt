-- ===== src/Writer/Calls.antt =====
-- What the two selects of Enqueue, of server/internal/storage/writer.go, can do to a stream.
use maping.Base.{
  ℕ, ◌≡◌, refl, Bool, ◌<◌, none, some, List, [], ◌∷◌, ◌++◌, length, ltb, arith, Bool-cases,
  Option-cases, inl, inr, ◌⊎◌,
}
use maping.Writer.{Stream, pick, enqueue, send, give_up}

module _ {T : Type 0} (has_tenant : T → Bool) (flush_rows : ℕ) where
  -- Only the calls that wait may change.
  pub enqueue-cases :
      (w : Stream T) (row : T)
      → (waiting : List T) × ((enqueue has_tenant flush_rows w row).0
          ≡ record w { waiting = waiting })
  unfolding enqueue
  enqueue-cases w row = elim (Bool-cases (has_tenant row)) [
    | inr e ↦ (w.waiting, rw e refl)
    | inl e ↦ elim (Bool-cases w.closed) [
      | inl c ↦ (w.waiting, rw (e, c) refl)
      | inr c ↦ (w.waiting ++ row ∷ [], rw (e, c) refl)
    ]
  ]

  -- The call has not returned, or its row is in the channel, which had room.
  pub send-cases :
      (w : Stream T) (n : ℕ)
      → (send has_tenant flush_rows w n ≡ (w, none))
        ⊎ ((waiting : List T) × (row : T) × (length w.channel < flush_rows)
            × (send has_tenant flush_rows w n
                ≡ (record w { waiting = waiting; channel = w.channel ++ row ∷ [] }, some row)))
  unfolding send
  send-cases w n = elim (Option-cases (pick n w.waiting)) [
    | inl e ↦ inl (rw (e, send) refl)
    | inr ((row, rest), e) ↦ elim (Bool-cases (ltb (length w.channel) flush_rows)) [
      | inl room ↦ inr (rest, row, ground arith, rw (e, send, room) refl)
      | inr full ↦ inl (rw (e, send, full) refl)
    ]
  ]

  pub give_up-cases :
      (w : Stream T) (n : ℕ)
      → (waiting : List T) × (give_up has_tenant flush_rows w n ≡ record w { waiting = waiting })
  unfolding give_up
  give_up-cases w n = elim (Option-cases (pick n w.waiting)) [
    | inl e ↦ (w.waiting, rw (e, give_up) refl)
    | inr ((row, rest), e) ↦ elim (Bool-cases w.closed) [
      | inl c ↦ (rest, rw (e, give_up, c) refl)
      | inr c ↦ (w.waiting, rw (e, give_up, c) refl)
    ]
  ]
