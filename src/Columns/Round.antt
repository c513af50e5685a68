-- ===== src/Columns/Round.antt =====
-- What is sorted and read back is the map that it was.
use maping.Base.{
  ℕ, ◌<◌, ◌%◌, ◌≡◌, ◌≢◌, refl, ◌∙◌, sym, Bool, true, false, Option, none, some, [], ◌∷◌, leb, arith,
  ite, All, Bool-cases, inl, inr,
}
use maping.Base.Assoc.{
  Map, Key, lookup, insert, Fresh, Distinct, lookup-insert, Fresh-lookup, nat_key,
}
use maping.Columns.{insert_sorted, sorted_by_key, narrowed, sorted_no_status_reasons, read_back}

module _ {K : Type 0} (le : K → K → Bool) where
  insert_sorted-Fresh :
      (i k : K) (c : ℕ) (m : Map K ℕ) → k ≢ i → Fresh i m → Fresh i (insert_sorted le k c m)
  unfolding insert_sorted
  insert_sorted-Fresh i k c [] h f = (h, tt)
  insert_sorted-Fresh i k c ((j, d) ∷ m) h f = ground (arith, insert_sorted-Fresh i k c m h f.1)

  insert_sorted-Distinct :
      (k : K) (c : ℕ) (m : Map K ℕ) → Fresh k m → Distinct m → Distinct (insert_sorted le k c m)
  unfolding insert_sorted
  insert_sorted-Distinct k c [] f d = (tt, tt)
  insert_sorted-Distinct k c ((j, e) ∷ m) f d =
      let apart : k ≢ j = λ same. f.0 (sym same) in
      let below = insert_sorted-Fresh j k c m apart d.0 in
      let rest = insert_sorted-Distinct k c m f.1 d.1 in
      elim (Bool-cases (le k j)) [ inl e ↦ rw e (f, d) | inr e ↦ rw e (below, rest) ]

  sorted-Fresh : (i : K) (m : Map K ℕ) → Fresh i m → Fresh i (sorted_by_key le m)
  unfolding sorted_by_key
  sorted-Fresh i [] f = tt
  sorted-Fresh i ((k, c) ∷ m) f =
      insert_sorted-Fresh i k c (sorted_by_key le m) f.0 (sorted-Fresh i m f.1)

  sorted-Distinct : (m : Map K ℕ) → Distinct m → Distinct (sorted_by_key le m)
  unfolding sorted_by_key
  sorted-Distinct [] d = tt
  sorted-Distinct ((k, c) ∷ m) d =
      insert_sorted-Distinct k c (sorted_by_key le m) (sorted-Fresh k m d.0) (sorted-Distinct m d.1)

module _ {K : Type 0} ⦃e : Key K⦄ (le : K → K → Bool) where
  lookup-insert_sorted :
      (j k : K) (c : ℕ) (m : Map K ℕ)
      → Fresh k m
      → lookup j (insert_sorted le k c m) ≡ ite (e.dec k j) (some c) (lookup j m)
  unfolding lookup insert_sorted
  lookup-insert_sorted j k c [] f = refl
  lookup-insert_sorted j k c ((i, d) ∷ m) f = ground (arith, lookup-insert_sorted j k c m f.1, f.0)

  lookup-sorted : (j : K) (m : Map K ℕ) → Distinct m → lookup j (sorted_by_key le m) ≡ lookup j m
  unfolding lookup sorted_by_key
  lookup-sorted j [] d = refl
  lookup-sorted j ((k, c) ∷ m) d =
      lookup-insert_sorted j k c (sorted_by_key le m) (sorted-Fresh le k m d.0)
      ∙ rw (lookup-sorted j m d.1) refl

  -- A read of what was read back into a map: what the list holds comes first.
  abbrev over : Option ℕ → Option ℕ → Option ℕ
  over (some c) o = some c
  over none o = o

  over-none : (o : Option ℕ) → over o none ≡ o
  over-none none = refl
  over-none (some c) = refl

  lookup-read_back :
      (j : K) (acc m : Map K ℕ)
      → Distinct m
      → lookup j (read_back acc m) ≡ over (lookup j m) (lookup j acc)
  unfolding lookup read_back
  lookup-read_back j acc [] d = refl
  lookup-read_back j acc ((k, c) ∷ m) d =
      lookup-read_back j (insert k c acc) m d.1
      ∙ ground (arith, lookup-insert k j c acc, Fresh-lookup k m d.0)

  -- Keys in ascending order.
  abbrev pub IsSorted : Map K ℕ → Type 0
  IsSorted [] = Unit
  IsSorted ((k, c) ∷ m) = All (λ x. le k x.0 ≡ true) m × IsSorted m

  All-insert_sorted :
      (P : K × ℕ → Type 0) (k : K) (c : ℕ) (m : Map K ℕ)
      → P (k, c)
      → All P m
      → All P (insert_sorted le k c m)
  unfolding insert_sorted
  All-insert_sorted P k c [] p a = (p, tt)
  All-insert_sorted P k c ((j, d) ∷ m) p a = elim (Bool-cases (le k j)) [
    | inl e ↦ rw e (p, a)
    | inr e ↦ rw e (a.0, All-insert_sorted P k c m p a.1)
  ]

  module _ (total : (a b : K) → le a b ≡ false → le b a ≡ true)
      (trans : (a b c : K) → le a b ≡ true → le b c ≡ true → le a c ≡ true) where
    below_trans :
        (k j : K) (m : Map K ℕ)
        → le k j ≡ true
        → All (λ x. le j x.0 ≡ true) m
        → All (λ x. le k x.0 ≡ true) m
    below_trans k j [] h a = tt
    below_trans k j ((i, d) ∷ m) h a = (trans k j i h a.0, below_trans k j m h a.1)

    insert_sorted-IsSorted :
        (k : K) (c : ℕ) (m : Map K ℕ) → IsSorted m → IsSorted (insert_sorted le k c m)
    unfolding insert_sorted
    insert_sorted-IsSorted k c [] s = (tt, tt)
    insert_sorted-IsSorted k c ((j, d) ∷ m) s = elim (Bool-cases (le k j)) [
      | inl e ↦ rw e ((e, below_trans k j m e s.0), s)
      | inr e ↦ rw e (
        All-insert_sorted (λ x. le j x.0 ≡ true) k c m (total k j e) s.0,
        insert_sorted-IsSorted k c m s.1,
      )
    ]

    sorted_by_key-IsSorted : (m : Map K ℕ) → IsSorted (sorted_by_key le m)
    unfolding sorted_by_key
    sorted_by_key-IsSorted [] = tt
    sorted_by_key-IsSorted ((k, c) ∷ m) =
        insert_sorted-IsSorted k c (sorted_by_key le m) (sorted_by_key-IsSorted m)

    -- A count map with distinct keys, under a total and transitive order of keys: the column is in
    -- ascending order of key with no key twice, and read back into a map it holds at each key what
    -- the map held.
    pub column_lem :
        (m : Map K ℕ)
        → Distinct m
        → IsSorted (sorted_by_key le m)
          × Distinct (sorted_by_key le m)
          × ((j : K) → lookup j (read_back [] (sorted_by_key le m)) ≡ lookup j m)
    unfolding lookup
    column_lem m d = (
      sorted_by_key-IsSorted m,
      sorted-Distinct le m d,
      λ j.
          lookup-read_back j [] (sorted_by_key le m) (sorted-Distinct le m d)
          ∙ over-none (lookup j (sorted_by_key le m))
          ∙ lookup-sorted j m d,
    )

narrowed-small : (m : Map ℕ ℕ) → All (λ x. x.0 < 256) m → narrowed m ≡ m
unfolding narrowed
narrowed-small [] a = refl
narrowed-small ((k, c) ∷ m) a =
    let same : k % 256 ≡ k = omega (arith, a.0) in rw (same, narrowed-small m a.1) refl

-- The column of reasons, which narrows its keys to a byte, gives back every reason below 256.
pub no_status_reasons_lem :
    (m : Map ℕ ℕ) (j : ℕ)
    → Distinct m
    → All (λ x. x.0 < 256) m
    → lookup j (read_back [] (sorted_no_status_reasons m)) ≡ lookup j m
unfolding sorted_no_status_reasons lookup
no_status_reasons_lem m j d a = rw (narrowed-small m a) (
    lookup-read_back leb j [] (sorted_by_key leb m) (sorted-Distinct leb m d)
    ∙ over-none leb (lookup j (sorted_by_key leb m))
    ∙ lookup-sorted leb j m d)
