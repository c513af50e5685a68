-- ===== src/Series/Counts.antt =====
-- The breakdowns against the list of everything that was recorded.
use maping.Base.{
  ℕ, suc, ◌≤◌, ◌<◌, ◌≡◌, refl, ◌∙◌, true, none, some, List, [], ◌∷◌, length, leb, if◌then◌else◌,
  arith, Bool-cases, inl, inr, ite, ◌⊎◌,
}
use maping.Base.Int.{ℤ, pos, ltb_ℤ}
use maping.Base.Word.{add64, add64_exact, u64_mod}
use maping.Base.Bytes.{Bytes, bytes_key, is_empty}
use maping.Base.Assoc.{Map, Key, lookup, insert, nat_key, lookup-insert, length-insert}
use maping.Label.{sanitize_error_class}
use maping.Series.{
  max_status_codes, max_error_classes, increment, record_code, record_error_class, to_u32,
}
use maping.Series.Codes.{
  bump_within, IsBounded, record_code-IsBounded, record_error_class-IsBounded,
}

module _ {K : Type 0} ⦃e : Key K⦄ where
  abbrev pub occurrences : K → List K → ℕ
  occurrences j [] = 0
  occurrences j (k ∷ ks) = ite (e.dec k j) (suc (occurrences j ks)) (occurrences j ks)

  occurrences-le : (j : K) (ks : List K) → occurrences j ks ≤ length ks
  occurrences-le j [] = omega arith
  occurrences-le j (k ∷ ks) = ground (arith, occurrences-le j ks)

  -- What the map says of a key, after the keys of a list: all its occurrences if it is tracked;
  -- if not, the map is full or the key did not occur.
  abbrev pub Tells : ℕ → Map K ℕ → List K → K → Type 0
  Tells limit m ks j =
      ((lookup j m ≡ some (occurrences j ks)) × (0 < occurrences j ks))
      ⊎ ((lookup j m ≡ none) × ((limit ≤ length m) ⊎ (occurrences j ks ≡ 0)))

  Tells-increment :
      (limit : ℕ) (m : Map K ℕ) (ks : List K) (k j : K) (c : ℕ)
      → c ≡ suc (occurrences k ks)
      → length m ≤ length (insert k c m)
      → Tells limit m ks j
      → Tells limit (insert k c m) (k ∷ ks) j
  Tells-increment limit m ks k j c count grows t = ground (arith, lookup-insert k j c m)

  Tells-bump_within :
      (limit : ℕ) (m : Map K ℕ) (ks : List K) (k : K)
      → suc (length ks) < u64_mod
      → ((j : K) → Tells limit m ks j)
      → (j : K) → Tells limit (bump_within limit k m) (k ∷ ks) j
  unfolding increment
  Tells-bump_within limit m ks k small t j = elim (t k) [
    | inl (found, seen) ↦
        let same : length (insert k (add64 (occurrences k ks) 1) m) ≡ length m =
          length-insert k _ m ∙ rw found refl in
        let exact : add64 (occurrences k ks) 1 ≡ suc (occurrences k ks) =
          add64_exact (occurrences k ks) 1 (omega (arith, occurrences-le k ks)) ∙ omega arith in
        rw (found, increment) (Tells-increment limit m ks k j _ exact (omega (arith, same)) (t j))
    | inr (missing, why) ↦
        rw (missing, increment)
          (elim (Bool-cases (leb limit (length m))) [
            | inl full ↦ rw full (untracked missing full)
            | inr room ↦ rw room (
                Tells-increment limit m ks k j 1 (ground (arith, why))
                  (let grown : length (insert k 1 m) ≡ suc (length m) =
                      length-insert k 1 m ∙ rw missing refl in
                    omega (arith, grown))
                  (t j))
          ])
  ]
    where
      untracked : lookup k m ≡ none → leb limit (length m) ≡ true → Tells limit m (k ∷ ks) j
      untracked missing full = ground (arith, t j)

-- The statuses and the labels that count, newest first.
abbrev pub counted_codes : List ℤ → List ℕ
counted_codes [] = []
counted_codes (st ∷ sts) =
    let rest = counted_codes sts in if ltb_ℤ st (pos 1) then rest else to_u32 st ∷ rest

abbrev pub counted_labels : List Bytes → List Bytes
counted_labels [] = []
counted_labels (raw ∷ raws) =
    let rest = counted_labels raws in
    if is_empty (sanitize_error_class raw) then rest else sanitize_error_class raw ∷ rest

-- The breakdowns after a list of statuses or labels, newest first.
abbrev pub all_codes : List ℤ → Map ℕ ℕ
all_codes [] = []
all_codes (st ∷ sts) = record_code (all_codes sts) st

abbrev pub all_labels : List Bytes → Map Bytes ℕ
all_labels [] = []
all_labels (raw ∷ raws) = record_error_class (all_labels raws) raw

all_codes-Tells :
    (sts : List ℤ)
    → length (counted_codes sts) < u64_mod
    → (j : ℕ) → Tells max_status_codes (all_codes sts) (counted_codes sts) j
unfolding record_code lookup
all_codes-Tells [] small j = inr (refl, inr refl)
all_codes-Tells (st ∷ sts) small j = elim (Bool-cases (ltb_ℤ st (pos 1))) [
  | inl e ↦ rw e (all_codes-Tells sts (rw e at small) j)
  | inr e ↦
      let small' : suc (length (counted_codes sts)) < u64_mod = rw e at small in
      rw e (
        Tells-bump_within max_status_codes (all_codes sts) (counted_codes sts) (to_u32 st) small'
          (all_codes-Tells sts (omega arith)) j)
]

all_labels-Tells :
    (raws : List Bytes)
    → length (counted_labels raws) < u64_mod
    → (j : Bytes) → Tells max_error_classes (all_labels raws) (counted_labels raws) j
unfolding record_error_class lookup
all_labels-Tells [] small j = inr (refl, inr refl)
all_labels-Tells (raw ∷ raws) small j = elim (Bool-cases (is_empty (sanitize_error_class raw))) [
  | inl e ↦ rw e (all_labels-Tells raws (rw e at small) j)
  | inr e ↦
      let small' : suc (length (counted_labels raws)) < u64_mod = rw e at small in
      rw e (
        Tells-bump_within max_error_classes (all_labels raws) (counted_labels raws)
          (sanitize_error_class raw) small' (all_labels-Tells raws (omega arith)) j)
]

all_codes-IsBounded : (sts : List ℤ) → IsBounded max_status_codes (all_codes sts)
all_codes-IsBounded [] = record { small = omega arith; distinct = tt }
all_codes-IsBounded (st ∷ sts) = record_code-IsBounded (all_codes sts) st (all_codes-IsBounded sts)

all_labels-IsBounded : (raws : List Bytes) → IsBounded max_error_classes (all_labels raws)
all_labels-IsBounded [] = record { small = omega arith; distinct = tt }
all_labels-IsBounded (raw ∷ raws) =
    record_error_class-IsBounded (all_labels raws) raw (all_labels-IsBounded raws)

-- After any statuses, fewer than 2^64 of them positive: at most twenty codes are tracked, none
-- twice, and for each code either its count is the number of times that it occurred, or it is
-- not tracked, and then the twenty places are taken or it did not occur. So a tracked code misses
-- no request.
pub all_codes_exact :
    (sts : List ℤ) (j : ℕ)
    → length (counted_codes sts) < u64_mod
    → IsBounded max_status_codes (all_codes sts)
      × Tells max_status_codes (all_codes sts) (counted_codes sts) j
all_codes_exact sts j small = (all_codes-IsBounded sts, all_codes-Tells sts small j)

-- The same of error labels, in their normal form: labels that normalize alike are counted
-- together, and one that normalizes to nothing is not counted.
pub all_labels_exact :
    (raws : List Bytes) (j : Bytes)
    → length (counted_labels raws) < u64_mod
    → IsBounded max_error_classes (all_labels raws)
      × Tells max_error_classes (all_labels raws) (counted_labels raws) j
all_labels_exact raws j small = (all_labels-IsBounded raws, all_labels-Tells raws small j)
