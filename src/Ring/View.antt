-- ===== src/Ring/View.antt =====
-- What a ring holds, oldest first: the invariant that ties the array to a list.
use maping.Base.{
  ℕ, zero, suc, ◌+◌, ◌-◌, ◌%◌, ◌≤◌, ◌<◌, ◌≡◌, ◌≢◌, refl, ap, ◌∙◌, sym, none, some, List, [], ◌∷◌,
  ◌++◌, length, get_elem?, get_or, set, arith, length-set, length-append, get_or-set_self,
  get_or-set_ne, dec_lt, ℕ_discrete, ◌⊎◌, inl, inr,
}
use native.Mathlib.Nat.{mod-eq_of_lt, mod-eq-sub-mod}
use maping.Ring.{Ring, vacate, put}

-- Positions at most once round an array of n slots.
wrap_low : (x n : ℕ) → x < n → x % n ≡ x
wrap_low x n h = mod-eq_of_lt h

wrap_high : (x n : ℕ) → n ≤ x → x < n + n → x % n ≡ x - n
wrap_high x n h k = rw (mod-eq-sub-mod h) (mod-eq_of_lt (omega arith))

-- The slot of the i-th element, and the same slot seen from the next head.
slot-lt : (h i n : ℕ) → 0 < n → (h + i) % n < n
slot-lt h i n p = omega arith

slot_cases :
    (h i n : ℕ)
    → h < n
    → i < n
    → ((h + i < n) × ((h + i) % n ≡ h + i)) ⊎ ((n ≤ h + i) × ((h + i) % n ≡ h + i - n))
slot_cases h i n p q = elim (dec_lt (h + i) n) [
  | yes lt ↦ inl (lt, wrap_low (h + i) n lt)
  | no ge ↦ inr (omega arith, wrap_high (h + i) n (omega arith) (omega arith))
]

slot_injective : (h i j n : ℕ) → h < n → i < n → j < n → (h + i) % n ≡ (h + j) % n → i ≡ j
slot_injective h i j n p q r e = omega (arith, slot_cases h i n p q, slot_cases h j n p r)

slot_first : (h n : ℕ) → h < n → (h + 0) % n ≡ h
slot_first h n p = wrap_low (h + 0) n (omega arith) ∙ omega arith

slot_next : (h i n : ℕ) → h < n → suc i < n → ((h + 1) % n + i) % n ≡ (h + suc i) % n
slot_next h i n p q =
    let next : (h + 1) % n < n = omega arith in
    omega (
      arith,
      slot_cases h 1 n p (omega arith),
      slot_cases ((h + 1) % n) i n next (omega arith),
      slot_cases h (suc i) n p q,
    )

slot_last : (h i n : ℕ) → h < n → suc i ≡ n → ((h + 1) % n + i) % n ≡ h
slot_last h zero n p q = let one : n ≡ 1 = omega arith in rw one (omega arith)
slot_last h (suc i) n p q =
    let next : (h + 1) % n < n = omega arith in
    omega (
      arith,
      slot_cases h 1 n p (omega arith),
      slot_cases ((h + 1) % n) (suc i) n next (omega arith),
    )

module _ {ℓ} {A : Type ℓ} where
  get_elem?_past : (xs : List A) (i : ℕ) → length xs ≤ i → get_elem? xs i ≡ none
  get_elem?_past [] i h = refl
  get_elem?_past (x ∷ xs) zero h = absurd (omega arith)
  get_elem?_past (x ∷ xs) (suc i) h = get_elem?_past xs i (omega arith)

  get_elem?-append_last : (xs : List A) (a : A) → get_elem? (xs ++ a ∷ []) (length xs) ≡ some a
  get_elem?-append_last [] a = refl
  get_elem?-append_last (x ∷ xs) a = get_elem?-append_last xs a

  get_elem?-append_ne :
      (xs : List A) (a : A) (i : ℕ) → i ≢ length xs → get_elem? (xs ++ a ∷ []) i ≡ get_elem? xs i
  get_elem?-append_ne [] a zero h = absurd (h refl)
  get_elem?-append_ne [] a (suc i) h = refl
  get_elem?-append_ne (x ∷ xs) a zero h = refl
  get_elem?-append_ne (x ∷ xs) a (suc i) h = get_elem?-append_ne xs a i (λ e. h (ap suc e))

  -- The slots from the head on hold the elements of the list, and nil after the last: no slot
  -- keeps an element that was taken out.
  pub record Holds (r : Ring A) (xs : List A) : Type ℓ where
    pub room : 0 < length r.buf
    pub head_in : r.head < length r.buf
    pub counted : r.count ≡ length xs
    pub fits : length xs ≤ length r.buf
    pub filled :
        (i : ℕ)
        → i < length r.buf
        → get_or r.buf ((r.head + i) % length r.buf) none ≡ get_elem? xs i

  pub Holds-head :
      (r : Ring A) (xs : List A) → Holds r xs → get_or r.buf r.head none ≡ get_elem? xs 0
  Holds-head r xs h =
      ap (λ k. get_or r.buf k none) (sym (slot_first r.head (length r.buf) h.head_in))
      ∙ h.filled 0 h.room

  vacate_filled :
      (r : Ring A) (x : A) (xs : List A)
      → Holds r (x ∷ xs)
      → (i : ℕ) → i < length r.buf
      → get_or (set r.buf r.head none) (((r.head + 1) % length r.buf + i) % length r.buf) none
        ≡ get_elem? xs i
  vacate_filled r x xs h i lt = elim (dec_lt (suc i) (length r.buf)) [
    | yes more ↦
        let apart : r.head ≢ (r.head + suc i) % length r.buf = λ e. absurd (
          let z =
            slot_injective r.head 0 (suc i) (length r.buf) h.head_in h.room more
              (slot_first r.head (length r.buf) h.head_in ∙ e) in
          omega arith) in
        rw (slot_next r.head i (length r.buf) h.head_in more)
          (get_or-set_ne r.buf r.head _ none none apart ∙ h.filled (suc i) more)
    | no end ↦ rw (slot_last r.head i (length r.buf) h.head_in (omega arith)) (
        get_or-set_self r.buf r.head none none h.head_in
        ∙ sym (get_elem?_past xs i (omega (arith, h.fits))))
  ]

  put_filled :
      (r : Ring A) (xs : List A) (a : A)
      → Holds r xs
      → length xs < length r.buf
      → (i : ℕ) → i < length r.buf
      → get_or
          (set r.buf ((r.head + r.count) % length r.buf) (some a))
          ((r.head + i) % length r.buf)
          none
        ≡ get_elem? (xs ++ a ∷ []) i
  put_filled r xs a h lt i le = elim (ℕ_discrete i (length xs)) [
    | yes e ↦
        rw (e, h.counted)
          (get_or-set_self r.buf _ (some a) none (slot-lt r.head (length xs) (length r.buf) h.room)
            ∙ sym (get_elem?-append_last xs a))
    | no ne ↦
        let apart : (r.head + r.count) % length r.buf ≢ (r.head + i) % length r.buf = λ e. ne (
          sym (
            slot_injective r.head r.count i (length r.buf) h.head_in (omega (arith, h.counted)) le
              e)
          ∙ h.counted) in
        get_or-set_ne r.buf _ _ (some a) none apart
        ∙ h.filled i le
        ∙ sym (get_elem?-append_ne xs a i ne)
  ]

  pub vacate-Holds : (r : Ring A) (x : A) (xs : List A) → Holds r (x ∷ xs) → Holds (vacate r) xs
  unfolding vacate
  vacate-Holds r x xs h =
      let same = length-set r.buf r.head none in
      record {
        room = omega (arith, same, h.room);
        head_in = rw same (slot-lt r.head 1 (length r.buf) h.room);
        counted = omega (arith, h.counted);
        fits = omega (arith, same, h.fits);
        filled = λ i lt. rw same (vacate_filled r x xs h i (omega (arith, same)));
      }

  pub put-Holds :
      (r : Ring A) (xs : List A) (a : A)
      → Holds r xs
      → length xs < length r.buf
      → Holds (put r a) (xs ++ a ∷ [])
  unfolding put
  put-Holds r xs a h lt =
      let same = length-set r.buf ((r.head + r.count) % length r.buf) (some a) in
      record {
        room = omega (arith, same, h.room);
        head_in = omega (arith, same, h.head_in);
        counted = omega (arith, h.counted, length-append xs (a ∷ []));
        fits = omega (arith, same, length-append xs (a ∷ []));
        filled = λ i le. rw same (put_filled r xs a h lt i (omega (arith, same)));
      }

  overwrite_filled :
      (r : Ring A) (x y : A) (xs : List A)
      → Holds r (x ∷ xs)
      → (i : ℕ) → i < length r.buf
      → get_or (set r.buf r.head (some y)) ((r.head + i) % length r.buf) none ≡ get_elem? (y ∷ xs) i
  overwrite_filled r x y xs h zero lt =
      rw (slot_first r.head (length r.buf) h.head_in)
        (get_or-set_self r.buf r.head (some y) none h.head_in)
  overwrite_filled r x y xs h (suc i) lt =
      let apart : r.head ≢ (r.head + suc i) % length r.buf = λ e. absurd (
        let z =
          slot_injective r.head 0 (suc i) (length r.buf) h.head_in h.room lt
            (slot_first r.head (length r.buf) h.head_in ∙ e) in
        omega arith) in
      get_or-set_ne r.buf r.head _ (some y) none apart ∙ h.filled (suc i) lt

  -- Writing to the oldest element in place, as through the pointer that `Peek` returns.
  pub overwrite-Holds :
      (r : Ring A) (x y : A) (xs : List A)
      → Holds r (x ∷ xs)
      → Holds (record r { buf = set r.buf r.head (some y) }) (y ∷ xs)
  overwrite-Holds r x y xs h =
      let same = length-set r.buf r.head (some y) in
      record {
        room = omega (arith, same, h.room);
        head_in = omega (arith, same, h.head_in);
        counted = h.counted;
        fits = omega (arith, same, h.fits);
        filled = λ i lt. rw same (overwrite_filled r x y xs h i (omega (arith, same)));
      }
