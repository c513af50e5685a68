-- ===== src/Uploader/Shutdown.antt =====
-- A graceful shutdown ships what is buffered, oldest first.
use mathlib.Core.List.{append_assoc, append-nil, map-append}
use maping.Base.{
  ℕ, suc, ◌≤◌, ◌≡◌, refl, ap, ◌∙◌, sym, List, [], ◌∷◌, ◌++◌, length, arith, ltb, true, false, Bool,
  map,
}
use mathlib.Core.Path.{subst}
use maping.Ring
use maping.Ring.View.{Holds}
use maping.Uploader.{Request, Loop, stamp, try_drain_oldest, drain_all}
use maping.Uploader.Pending.{drain_accepted, drain_refused, written-Holds, popped-Holds}

-- The uploads that the collector accepts.
abbrev pub acceptances : List Bool → ℕ
acceptances [] = 0
acceptances (true ∷ answers) = suc (acceptances answers)
acceptances (false ∷ answers) = acceptances answers

module _ {S : Type 0} where
  -- The windows that requests carry.
  abbrev pub windows : List (Request S) → List (List S)
  windows = map (λ r. r.summaries)

  drain_all_empty : (l : Loop S) (answers : List Bool) → Holds l.ring [] → drain_all l answers ≡ l
  unfolding drain_all Ring.len
  drain_all_empty l [] h = refl
  drain_all_empty l (a ∷ answers) h =
      let e : ltb 0 l.ring.count ≡ false = ground (arith, h.counted) in rw e refl

  drain_all_step :
      (l : Loop S) (x : Request S) (xs : List (Request S)) (a : Bool) (answers : List Bool)
      → Holds l.ring (x ∷ xs)
      → drain_all l (a ∷ answers) ≡ drain_all (try_drain_oldest l a).0 answers
  unfolding drain_all Ring.len
  drain_all_step l x xs a answers h =
      let e : ltb 0 l.ring.count ≡ true = ground (arith, h.counted) in rw e refl

  stamped :
      (l : Loop S) (x : Request S) (xs : List (Request S))
      → windows l.uploaded ++ windows (stamp l x ∷ xs) ≡ windows l.uploaded ++ windows (x ∷ xs)
  unfolding stamp
  stamped l x xs = refl

  -- If the collector accepts at least as many uploads as requests are pending before the context
  -- expires, with any refusals between them, the ring ends up empty and the collector has received
  -- the window of each pending request once, oldest first, behind what it had.
  pub drain_all_ships :
      (l : Loop S) (xs : List (Request S)) (answers : List Bool)
      → Holds l.ring xs
      → length xs ≤ acceptances answers
      → Holds (drain_all l answers).ring []
        × (windows (drain_all l answers).uploaded ≡ windows l.uploaded ++ windows xs)
  drain_all_ships l [] answers h enough =
      rw (drain_all_empty l answers h) (h, sym (append-nil (windows l.uploaded)))
  drain_all_ships l (x ∷ xs) [] h enough = absurd (omega arith)
  drain_all_ships l (x ∷ xs) (true ∷ answers) h enough =
      let e = ap (λ p. p.0) (drain_accepted l x xs h) in
      let (empty, order) =
        drain_all_ships (try_drain_oldest l true).0 xs answers
          (subst (λ m. Holds m.ring xs) (sym e) (popped-Holds l x xs h)) (omega arith) in
      rw (drain_all_step l x xs true answers h) (
        empty,
        order
            ∙ ap (λ m. windows m.uploaded ++ windows xs) e
            ∙ ap (λ ws. ws ++ windows xs)
                (map-append (λ r. r.summaries) l.uploaded (stamp l x ∷ []))
            ∙ append_assoc (windows l.uploaded) _ (windows xs)
            ∙ stamped l x xs,
      )
  drain_all_ships l (x ∷ xs) (false ∷ answers) h enough =
      let e = ap (λ p. p.0) (drain_refused l x xs h) in
      let (empty, order) =
        drain_all_ships (try_drain_oldest l false).0 (stamp l x ∷ xs) answers
          (subst (λ m. Holds m.ring (stamp l x ∷ xs)) (sym e) (written-Holds l x xs h))
          (omega arith) in
      rw (drain_all_step l x xs false answers h)
        (empty, order ∙ ap (λ m. windows m.uploaded ++ windows (stamp l x ∷ xs)) e ∙ stamped l x xs)
