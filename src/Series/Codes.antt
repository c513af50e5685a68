-- ===== src/Series/Codes.antt =====
-- The bounded breakdowns of a series: exact status codes, error labels, reasons.
use maping.Base.{
  ℕ, suc, ◌≤◌, ◌≡◌, refl, ◌∙◌, ◌&&◌, not, Option, none, some, length, leb, if◌then◌else◌, is_some,
  arith, Bool-cases, Option-cases, inl, inr, ite,
}
use maping.Base.Int.{ℤ, pos, ltb_ℤ}
use maping.Base.Word.{add64}
use maping.Base.Bytes.{Bytes, bytes_key, is_empty}
use maping.Base.Assoc.{
  Map, Key, lookup, insert, nat_key, Distinct, lookup-insert, length-insert, Distinct-insert,
}
use maping.Label.{sanitize_error_class}
use maping.Series.{
  max_status_codes, max_error_classes, increment, record_code, record_error_class, to_u32,
}

abbrev pub or_zero : Option ℕ → ℕ
or_zero none = 0
or_zero (some c) = c

module _ {K : Type 0} ⦃e : Key K⦄ where
  -- One more of a key, unless the key is new and the map is full.
  abbrev pub bump_within : ℕ → K → Map K ℕ → Map K ℕ
  bump_within limit k m =
      if not (is_some (lookup k m)) && leb limit (length m) then m else increment k m

  pub lookup-increment :
      (k j : K) (m : Map K ℕ)
      → lookup j (increment k m)
        ≡ ite
            (e.dec k j)
            (some (if is_some (lookup k m) then add64 (or_zero (lookup k m)) 1 else 1))
            (lookup j m)
  unfolding increment
  lookup-increment k j m = elim (Option-cases (lookup k m)) [
    | inl new ↦ rw (new, increment) (lookup-insert k j 1 m)
    | inr (c, old) ↦ rw (old, increment) (lookup-insert k j (add64 c 1) m)
  ]

  length-bump_within :
      (limit : ℕ) (k : K) (m : Map K ℕ) → length m ≤ limit → length (bump_within limit k m) ≤ limit
  unfolding increment
  length-bump_within limit k m h = elim (Option-cases (lookup k m)) [
    | inl new ↦ rw (new, increment) (grow new)
    | inr (c, old) ↦
        rw (old, increment) (let same = length-insert k (add64 c 1) m in rw (same, old) h)
  ]
    where
      grow : lookup k m ≡ none → length (if leb limit (length m) then m else insert k 1 m) ≤ limit
      grow new =
          let same : length (insert k 1 m) ≡ suc (length m) = length-insert k 1 m ∙ rw new refl in
          ground (arith, same)

  Distinct-bump_within :
      (limit : ℕ) (k : K) (m : Map K ℕ) → Distinct m → Distinct (bump_within limit k m)
  unfolding increment
  Distinct-bump_within limit k m d = elim (Option-cases (lookup k m)) [
    | inl new ↦
        rw (new, increment)
          (elim (Bool-cases (leb limit (length m))) [
            | inl full ↦ rw full d
            | inr free ↦ rw free (Distinct-insert k 1 m d)
          ])
    | inr (c, old) ↦ rw (old, increment) (Distinct-insert k (add64 c 1) m d)
  ]

  -- A map of counters within its limit, no key twice.
  pub record IsBounded (limit : ℕ) (m : Map K ℕ) : Type 0 where
    pub small : length m ≤ limit
    pub distinct : Distinct m

  pub bump_within-IsBounded :
      (limit : ℕ) (k : K) (m : Map K ℕ)
      → IsBounded limit m
      → IsBounded limit (bump_within limit k m)
  bump_within-IsBounded limit k m b = record {
    small = length-bump_within limit k m b.small;
    distinct = Distinct-bump_within limit k m b.distinct;
  }

  pub lookup-bump_within :
      (limit : ℕ) (k j : K) (m : Map K ℕ)
      → lookup j (bump_within limit k m) ≡ (
          if not (is_some (lookup k m)) && leb limit (length m)
          then lookup j m
          else ite
              (e.dec k j)
              (some (if is_some (lookup k m) then add64 (or_zero (lookup k m)) 1 else 1))
              (lookup j m))
  lookup-bump_within limit k j m =
      elim (Bool-cases (not (is_some (lookup k m)) && leb limit (length m))) [
        | inl full ↦ rw full refl
        | inr free ↦ rw free (lookup-increment k j m)
      ]

pub record_code-IsBounded :
    (m : Map ℕ ℕ) (status : ℤ)
    → IsBounded max_status_codes m
    → IsBounded max_status_codes (record_code m status)
unfolding record_code
record_code-IsBounded m status b = elim (Bool-cases (ltb_ℤ status (pos 1))) [
  | inl e ↦ rw e b
  | inr e ↦ rw e (bump_within-IsBounded max_status_codes (to_u32 status) m b)
]

pub record_error_class-IsBounded :
    (m : Map Bytes ℕ) (raw : Bytes)
    → IsBounded max_error_classes m
    → IsBounded max_error_classes (record_error_class m raw)
unfolding record_error_class
record_error_class-IsBounded m raw b = elim (Bool-cases (is_empty (sanitize_error_class raw))) [
  | inl e ↦ rw e b
  | inr e ↦ rw e (bump_within-IsBounded max_error_classes (sanitize_error_class raw) m b)
]
