-- ===== src/Base/Sort.antt =====
-- Insertion sort as Go's sort package runs it on short slices: each element moves left past those
-- that it is less than, so equal elements keep their order. Longer slices get the same result
-- whenever `less` is a strict weak order.
use Prim.Native.Nat.{suc, ◌+◌}
use mathlib.Core.Bool.{Bool, true, false}
use mathlib.Core.Path.{◌≡◌, refl}
use mathlib.Core.Logic.{inl, inr}
use mathlib.Core.List.{List, [], ◌∷◌, ◌++◌, Perm, perm_middle}
use mathlib.Core.List.Perm
use native.Mathlib.Omega.{arith}
use maping.Base.Tests.{if◌then◌else◌, Bool-cases}
use maping.Base.Lists.{length, All}

module _ {ℓ} {A : Type ℓ} (less : A → A → Bool) where
  -- The sorted part in reverse, its right end first.
  unfoldable pub insert_left : A → List A → List A
  insert_left x [] = x ∷ []
  insert_left x (y ∷ ys) = let rest = insert_left x ys in if less x y then y ∷ rest else x ∷ y ∷ ys

  unfoldable pub sort_onto : List A → List A → List A
  sort_onto done [] = done
  sort_onto done (x ∷ xs) = sort_onto (insert_left x done) xs

  unfoldable pub reverse_onto : List A → List A → List A
  reverse_onto acc [] = acc
  reverse_onto acc (x ∷ xs) = reverse_onto (x ∷ acc) xs

  unfoldable pub sort_by : List A → List A
  sort_by xs = reverse_onto [] (sort_onto [] xs)

  -- No element is less than the one before it.
  abbrev pub IsOrdered : List A → Type 0
  IsOrdered [] = Unit
  IsOrdered (x ∷ []) = Unit
  IsOrdered (x ∷ y ∷ ys) = (less y x ≡ false) × IsOrdered (y ∷ ys)

  -- The same of the reversed list.
  abbrev pub IsOrderedBack : List A → Type 0
  IsOrderedBack [] = Unit
  IsOrderedBack (x ∷ []) = Unit
  IsOrderedBack (x ∷ y ∷ ys) = (less x y ≡ false) × IsOrderedBack (y ∷ ys)

module _ {ℓ} {A : Type ℓ} (less : A → A → Bool) where
  insert_left-Perm : (x : A) (ys : List A) → Perm (insert_left less x ys) (x ∷ ys)
  unfolding insert_left
  insert_left-Perm x [] = Perm.refl (x ∷ [])
  insert_left-Perm x (y ∷ ys) = elim (Bool-cases (less x y)) [
    | inl e ↦ rw e (Perm.trans (Perm.cons y (insert_left-Perm x ys)) (Perm.swap x y ys))
    | inr e ↦ rw e (Perm.refl (x ∷ y ∷ ys))
  ]

  sort_onto-Perm : (done xs : List A) → Perm (sort_onto less done xs) (xs ++ done)
  unfolding sort_onto
  sort_onto-Perm done [] = Perm.refl done
  sort_onto-Perm done (x ∷ xs) =
      Perm.trans (sort_onto-Perm (insert_left less x done) xs)
        (Perm.trans (Perm.append_left xs (insert_left-Perm x done)) (perm_middle xs done))

  reverse_onto-Perm : (acc xs : List A) → Perm (reverse_onto less acc xs) (xs ++ acc)
  unfolding reverse_onto
  reverse_onto-Perm acc [] = Perm.refl acc
  reverse_onto-Perm acc (x ∷ xs) = Perm.trans (reverse_onto-Perm (x ∷ acc) xs) (perm_middle xs acc)

  append_nil : (xs : List A) → Perm (xs ++ []) xs
  append_nil [] = Perm.refl []
  append_nil (x ∷ xs) = Perm.cons x (append_nil xs)

  -- Sorting rearranges.
  pub sort_by-Perm : (xs : List A) → Perm (sort_by less xs) xs
  unfolding sort_by
  sort_by-Perm xs = Perm.trans (reverse_onto-Perm [] (sort_onto less [] xs)) (
      Perm.trans (append_nil (sort_onto less [] xs))
        (Perm.trans (sort_onto-Perm [] xs) (append_nil xs)))

  All-insert_left {κ} :
      (P : A → Type κ) (x : A) (ys : List A) → P x → All P ys → All P (insert_left less x ys)
  unfolding insert_left
  All-insert_left P x [] px h = (px, h)
  All-insert_left P x (y ∷ ys) px (py, h) = elim (Bool-cases (less x y)) [
    | inl e ↦ rw e (py, All-insert_left P x ys px h)
    | inr e ↦ rw e (px, (py, h))
  ]

  All-sort_onto {κ} :
      (P : A → Type κ) (done xs : List A) → All P done → All P xs → All P (sort_onto less done xs)
  unfolding sort_onto
  All-sort_onto P done [] hd _ = hd
  All-sort_onto P done (x ∷ xs) hd (px, h) =
      All-sort_onto P (insert_left less x done) xs (All-insert_left P x done px hd) h

  All-reverse_onto {κ} :
      (P : A → Type κ) (acc xs : List A) → All P acc → All P xs → All P (reverse_onto less acc xs)
  unfolding reverse_onto
  All-reverse_onto P acc [] ha _ = ha
  All-reverse_onto P acc (x ∷ xs) ha (px, h) = All-reverse_onto P (x ∷ acc) xs (px, ha) h

  -- What holds of every element holds after sorting.
  pub All-sort_by {κ} : (P : A → Type κ) (xs : List A) → All P xs → All P (sort_by less xs)
  unfolding sort_by
  All-sort_by P xs h = All-reverse_onto P [] (sort_onto less [] xs) tt (All-sort_onto P [] xs tt h)

  length-insert_left : (x : A) (ys : List A) → length (insert_left less x ys) ≡ suc (length ys)
  unfolding insert_left
  length-insert_left x [] = refl
  length-insert_left x (y ∷ ys) = elim (Bool-cases (less x y)) [
    | inl e ↦ rw e (omega (arith, length-insert_left x ys))
    | inr e ↦ rw e refl
  ]

  length-sort_onto : (done xs : List A) → length (sort_onto less done xs) ≡ length xs + length done
  unfolding sort_onto
  length-sort_onto done [] = omega arith
  length-sort_onto done (x ∷ xs) =
      omega (arith, length-sort_onto (insert_left less x done) xs, length-insert_left x done)

  length-reverse_onto :
      (acc xs : List A) → length (reverse_onto less acc xs) ≡ length xs + length acc
  unfolding reverse_onto
  length-reverse_onto acc [] = omega arith
  length-reverse_onto acc (x ∷ xs) = omega (arith, length-reverse_onto (x ∷ acc) xs)

  pub length-sort_by : (xs : List A) → length (sort_by less xs) ≡ length xs
  unfolding sort_by
  length-sort_by xs =
      omega (arith, length-reverse_onto [] (sort_onto less [] xs), length-sort_onto [] xs)

-- An asymmetric test is all that order of neighbours needs.
module _ {ℓ} {A : Type ℓ} (less : A → A → Bool)
    (asym : (x y : A) → less x y ≡ true → less y x ≡ false) where
  insert_left_below :
      (x y : A) (ys : List A)
      → less x y ≡ true
      → IsOrderedBack less (y ∷ ys)
      → IsOrderedBack less (y ∷ insert_left less x ys)
  unfolding insert_left
  insert_left_below x y [] e _ = (asym x y e, tt)
  insert_left_below x y (z ∷ ys) e h = elim (Bool-cases (less x z)) [
    | inl f ↦ rw f (h.0, insert_left_below x z ys f h.1)
    | inr f ↦ rw f (asym x y e, (f, h.1))
  ]

  insert_left-IsOrderedBack :
      (x : A) (ys : List A) → IsOrderedBack less ys → IsOrderedBack less (insert_left less x ys)
  unfolding insert_left
  insert_left-IsOrderedBack x [] h = tt
  insert_left-IsOrderedBack x (y ∷ ys) h = elim (Bool-cases (less x y)) [
    | inl e ↦ rw e (insert_left_below x y ys e h)
    | inr e ↦ rw e (e, h)
  ]

  sort_onto-IsOrderedBack :
      (done xs : List A) → IsOrderedBack less done → IsOrderedBack less (sort_onto less done xs)
  unfolding sort_onto
  sort_onto-IsOrderedBack done [] h = h
  sort_onto-IsOrderedBack done (x ∷ xs) h =
      sort_onto-IsOrderedBack (insert_left less x done) xs (insert_left-IsOrderedBack x done h)

  Meets : List A → List A → Type 0
  Meets [] acc = Unit
  Meets (x ∷ xs) [] = Unit
  Meets (x ∷ xs) (y ∷ ys) = less y x ≡ false

  Meets-nil : (xs : List A) → Meets xs []
  unfolding Meets
  Meets-nil [] = tt
  Meets-nil (x ∷ xs) = tt

  reverse_onto-IsOrdered :
      (acc xs : List A)
      → IsOrdered less acc
      → IsOrderedBack less xs
      → Meets xs acc
      → IsOrdered less (reverse_onto less acc xs)
  unfolding reverse_onto Meets
  reverse_onto-IsOrdered acc [] ha _ _ = ha
  reverse_onto-IsOrdered [] (x ∷ []) ha h m = tt
  reverse_onto-IsOrdered (a ∷ acc) (x ∷ []) ha h m = (m, ha)
  reverse_onto-IsOrdered [] (x ∷ y ∷ xs) ha h m =
      reverse_onto-IsOrdered (x ∷ []) (y ∷ xs) tt h.1 h.0
  reverse_onto-IsOrdered (a ∷ acc) (x ∷ y ∷ xs) ha h m =
      reverse_onto-IsOrdered (x ∷ a ∷ acc) (y ∷ xs) (m, ha) h.1 h.0

  -- After sorting no element is less than the one before it.
  pub sort_by-IsOrdered : (xs : List A) → IsOrdered less (sort_by less xs)
  unfolding sort_by
  sort_by-IsOrdered xs =
      reverse_onto-IsOrdered [] (sort_onto less [] xs) tt (sort_onto-IsOrderedBack [] xs tt)
        (Meets-nil (sort_onto less [] xs))
