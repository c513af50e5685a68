-- ===== src/Ring/Refinement.antt =====
-- The ring against its specification, a bounded queue that drops its oldest element.
use maping.Base.{
  ℕ, zero, suc, ◌<◌, ◌≡◌, refl, ap, ◌∙◌, Option, none, some, List, [], ◌∷◌, ◌++◌, length, get_or,
  arith, ◌==◌, if◌then◌else◌, Bool-cases, inl, inr, length-set, length-replicate, replicate, true,
  false,
}
use mathlib.Core.Path.{subst}
use maping.Base.Int.{ℤ, pos, pos_part, ltb_ℤ}
use maping.Ring.{Ring, new, vacate, put, push, peek, pop_oldest, len}
use maping.Ring.View.{Holds, Holds-head, vacate-Holds, put-Holds}

-- The capacity that `New` allots: at least one.
abbrev pub slots : ℤ → ℕ
slots c = if ltb_ℤ c (pos 1) then 1 else pos_part c

slots-pos : (c : ℤ) → 0 < slots c
slots-pos c = ground arith

pub length-new {ℓ} : (A : Type ℓ) (c : ℤ) → length (new {A = A} c).buf ≡ slots c
unfolding new
length-new A c = length-replicate {A = Option A} (slots c) none

module _ {ℓ} {A : Type ℓ} where
  -- A queue of at most `limit` elements, oldest first.
  abbrev pub enqueue : ℕ → List A → A → List A × Option A
  enqueue limit [] a = (a ∷ [], none)
  enqueue limit (x ∷ xs) a =
      if suc (length xs) == limit then (xs ++ a ∷ [], some x) else (x ∷ (xs ++ a ∷ []), none)

  abbrev pub front : List A → Option A
  front [] = none
  front (x ∷ xs) = some x

  abbrev pub dequeue : List A → List A × Option A
  dequeue [] = ([], none)
  dequeue (x ∷ xs) = (xs, some x)

  get_or-nils : (n i : ℕ) → get_or {A = Option A} (replicate n none) i none ≡ none
  get_or-nils zero i = refl
  get_or-nils (suc n) zero = refl
  get_or-nils (suc n) (suc i) = get_or-nils n i

  pub new-Holds : (c : ℤ) → Holds (new {A = A} c) []
  unfolding new
  new-Holds c =
      let size = length-new A c in
      let some_room = slots-pos c in
      record {
        room = omega (arith, size, some_room);
        head_in = omega (arith, size, some_room);
        counted = refl;
        fits = omega arith;
        filled = λ i lt. get_or-nils (slots c) _;
      }

  pub length-push : (r : Ring A) (a : A) → length (push r a).0.buf ≡ length r.buf
  unfolding push put vacate
  length-push r a = elim (Bool-cases (r.count == length r.buf)) [
    | inl e ↦ rw e (length-set _ _ _ ∙ length-set r.buf r.head none)
    | inr e ↦ rw e (length-set r.buf _ _)
  ]

  pub length-pop : (r : Ring A) → length (pop_oldest r).0.buf ≡ length r.buf
  unfolding pop_oldest vacate
  length-pop r = elim (Bool-cases (r.count == 0)) [
    | inl e ↦ rw e refl
    | inr e ↦ rw e (length-set r.buf r.head none)
  ]

  pub push-enqueue :
      (r : Ring A) (xs : List A) (a : A)
      → Holds r xs
      → Holds (push r a).0 (enqueue (length r.buf) xs a).0
        × ((push r a).1 ≡ (enqueue (length r.buf) xs a).1)
  unfolding push
  push-enqueue r [] a h =
      let e : r.count == length r.buf ≡ false = ground (arith, h.counted, h.room) in
      rw e (put-Holds r [] a h h.room, refl)
  push-enqueue r (x ∷ xs) a h = elim (Bool-cases (r.count == length r.buf)) [
    | inl full ↦
        let e : suc (length xs) == length r.buf ≡ true = ground (arith, h.counted) in
        let same = length-set r.buf r.head none in
        rw (full, e)
          (
            put-Holds (vacate r) xs a (vacate-Holds r x xs h)
                (unfold vacate in omega (arith, same, h.fits)),
            Holds-head r (x ∷ xs) h,
          )
    | inr free ↦
        let e : suc (length xs) == length r.buf ≡ false = ground (arith, h.counted) in
        let more : suc (length xs) < length r.buf = ground (arith, h.fits) in
        rw (free, e) (put-Holds r (x ∷ xs) a h more, refl)
  ]

  pub pop-dequeue :
      (r : Ring A) (xs : List A)
      → Holds r xs
      → Holds (pop_oldest r).0 (dequeue xs).0 × ((pop_oldest r).1 ≡ (dequeue xs).1)
  unfolding pop_oldest
  pop-dequeue r [] h = let e : r.count == 0 ≡ true = ground (arith, h.counted) in rw e (h, refl)
  pop-dequeue r (x ∷ xs) h =
      let e : r.count == 0 ≡ false = ground (arith, h.counted) in
      rw e (vacate-Holds r x xs h, Holds-head r (x ∷ xs) h)

  pub peek-front : (r : Ring A) (xs : List A) → Holds r xs → peek r ≡ front xs
  unfolding peek
  peek-front r [] h = let e : r.count == 0 ≡ true = ground (arith, h.counted) in rw e refl
  peek-front r (x ∷ xs) h =
      let e : r.count == 0 ≡ false = ground (arith, h.counted) in rw e (Holds-head r (x ∷ xs) h)

-- The calls of a client, and what they answer.
pub data Call {ℓ} (A : Type ℓ) : Type ℓ where
  pushes : A → Call A
  pops : Call A
  peeks : Call A

module _ {ℓ} {A : Type ℓ} where
  unfoldable pub serve : Ring A → List (Call A) → List (Option A)
  serve r [] = []
  serve r (pushes a ∷ cs) = (push r a).1 ∷ serve (push r a).0 cs
  serve r (pops ∷ cs) = (pop_oldest r).1 ∷ serve (pop_oldest r).0 cs
  serve r (peeks ∷ cs) = peek r ∷ serve r cs

  unfoldable pub serve_queue : ℕ → List A → List (Call A) → List (Option A)
  serve_queue limit xs [] = []
  serve_queue limit xs (pushes a ∷ cs) =
      (enqueue limit xs a).1 ∷ serve_queue limit (enqueue limit xs a).0 cs
  serve_queue limit xs (pops ∷ cs) = (dequeue xs).1 ∷ serve_queue limit (dequeue xs).0 cs
  serve_queue limit xs (peeks ∷ cs) = front xs ∷ serve_queue limit xs cs

  serve-Holds :
      (r : Ring A) (xs : List A) (n : ℕ) (cs : List (Call A))
      → length r.buf ≡ n
      → Holds r xs
      → serve r cs ≡ serve_queue n xs cs
  unfolding serve serve_queue
  serve-Holds r xs n [] e h = refl
  serve-Holds r xs n (pushes a ∷ cs) e h =
      let (h', out) = push-enqueue r xs a h in
      let rest =
        serve-Holds (push r a).0 (enqueue n xs a).0 n cs (length-push r a ∙ e)
          (subst (λ k. Holds (push r a).0 (enqueue k xs a).0) e h') in
      cc (out ∙ ap (λ k. (enqueue k xs a).1) e, rest)
  serve-Holds r xs n (pops ∷ cs) e h =
      let (h', out) = pop-dequeue r xs h in
      cc (out, serve-Holds (pop_oldest r).0 (dequeue xs).0 n cs (length-pop r ∙ e) h')
  serve-Holds r xs n (peeks ∷ cs) e h = cc (peek-front r xs h, serve-Holds r xs n cs e h)

  -- A new ring answers every sequence of calls as a queue does whose limit is the capacity, or one
  -- if the capacity is below one: a push on a full queue hands back the oldest element and makes
  -- room, any other push hands back nil; a pop or a peek gives the oldest element, nil when empty.
  pub serve-serve_queue :
      (c : ℤ) (cs : List (Call A)) → serve (new c) cs ≡ serve_queue (slots c) [] cs
  serve-serve_queue c cs = serve-Holds (new c) [] (slots c) cs (length-new A c) (new-Holds c)

  -- `Push` keeps the ring's invariant: afterwards the slots from the head on hold the queue with
  -- the new element, oldest first, every other slot is nil, and `Len` is the number of elements.
  pub push-Holds :
      (r : Ring A) (xs : List A) (a : A)
      → Holds r xs
      → Holds (push r a).0 (enqueue (length r.buf) xs a).0
        × ((push r a).1 ≡ (enqueue (length r.buf) xs a).1)
        × (len (push r a).0 ≡ length (enqueue (length r.buf) xs a).0)
  unfolding len
  push-Holds r xs a h = let (h', out) = push-enqueue r xs a h in (h', out, h'.counted)
