-- ===== src/Ring/Tests.antt =====
-- The ring at concrete inputs.
use maping.Base.{ℕ, ◌≡◌, refl, none, some, List, [], ◌∷◌}
use maping.Base.Int.{pos}
use maping.Ring
use maping.Ring.{new, push, len}
use maping.Ring.Refinement.{serve, serve_queue, serve-serve_queue, slots, Call, pushes, pops, peeks}

abbrev calls : List (Call ℕ)
calls = pushes 1 ∷ pushes 2 ∷ pushes 3 ∷ peeks ∷ pops ∷ pops ∷ pops ∷ []

drops_oldest :
    serve (new (pos 2)) calls ≡ none ∷ none ∷ some 1 ∷ some 2 ∷ some 2 ∷ some 3 ∷ none ∷ []
unfolding serve new push Ring.put Ring.vacate Ring.peek Ring.pop_oldest
drops_oldest = refl

serve-serve_queue_example : serve (new (pos 2)) calls ≡ serve_queue (slots (pos 2)) [] calls
serve-serve_queue_example = serve-serve_queue (pos 2) calls

abbrev seven : ℕ
seven = 7
