-- ===== src/Base/Assoc.antt =====
-- Go's maps as association lists: a read, a write, a delete, the number of keys.
-- The order of entries is the order of first insertion; Go's is unspecified, so statements about
-- maps go through `lookup` and `length`, or range over every order.
use Prim.Native.Nat.{ℕ, suc}
use mathlib.Core.Bool.{Bool}
use mathlib.Core.Path.{◌≡◌, refl, subst₂}
use mathlib.Core.Logic.{ite, ◌≢◌, if_pos, if_neg}
use mathlib.Core.List.{List, [], ◌∷◌}
use mathlib.Core.Option.{Option, none, some}
use native.Mathlib.Omega.{arith}
use native.Mathlib.Decide.{ℕ_discrete}
use maping.Base.Lists.{length, keep, All}

-- A type of keys: equality of keys is decided.
pub record Key {ℓ} (K : Type ℓ) : Type ℓ where
  pub dec : Discrete K

abbrev pub Map {ℓ} : Type ℓ → Type ℓ → Type ℓ
Map K V = List (K × V)

module _ {ℓ} {K V : Type ℓ} where
  -- The key is nowhere in the list.
  abbrev pub Fresh : K → Map K V → Type ℓ
  Fresh k [] = Unit
  Fresh k ((j, v) ∷ m) = (j ≢ k) × Fresh k m

  -- No key twice.
  abbrev pub Distinct : Map K V → Type ℓ
  Distinct [] = Unit
  Distinct ((j, v) ∷ m) = Fresh j m × Distinct m

module _ {ℓ} {K V : Type ℓ} ⦃e : Key K⦄ where
  unfoldable pub lookup : K → Map K V → Option V
  lookup k [] = none
  lookup k ((j, v) ∷ m) = ite (e.dec j k) (some v) (lookup k m)

  unfoldable pub insert : K → V → Map K V → Map K V
  insert k v [] = (k, v) ∷ []
  insert k v ((j, w) ∷ m) = ite (e.dec j k) ((k, v) ∷ m) ((j, w) ∷ insert k v m)

  unfoldable pub delete : K → Map K V → Map K V
  delete k [] = []
  delete k ((j, w) ∷ m) = ite (e.dec j k) (delete k m) ((j, w) ∷ delete k m)

  pub lookup-insert :
      (k j : K) (v : V) (m : Map K V)
      → lookup j (insert k v m) ≡ ite (e.dec k j) (some v) (lookup j m)
  unfolding lookup insert
  lookup-insert k j v [] = refl
  lookup-insert k j v ((i, w) ∷ m) = ground (arith, lookup-insert k j v m)

  pub lookup-delete :
      (k j : K) (m : Map K V) → lookup j (delete k m) ≡ ite (e.dec k j) none (lookup j m)
  unfolding lookup delete
  lookup-delete k j [] = ground arith
  lookup-delete k j ((i, w) ∷ m) = ground (arith, lookup-delete k j m)

  -- A write of a key that is there keeps the size, any other adds one.
  pub length-insert :
      (k : K) (v : V) (m : Map K V)
      → length (insert k v m) ≡ elim (lookup k m) [ none ↦ suc (length m) | some w ↦ length m ]
  unfolding lookup insert
  length-insert k v [] = refl
  length-insert k v ((j, w) ∷ m) = ground (arith, length-insert k v m)

  pub Fresh-lookup : (k : K) (m : Map K V) → Fresh k m → lookup k m ≡ none
  unfolding lookup
  Fresh-lookup k [] f = refl
  Fresh-lookup k ((j, v) ∷ m) f = ground (arith, Fresh-lookup k m f.1)

  pub Fresh-insert : (i k : K) (v : V) (m : Map K V) → k ≢ i → Fresh i m → Fresh i (insert k v m)
  unfolding insert
  Fresh-insert i k v [] h f = (h, tt)
  Fresh-insert i k v ((j, w) ∷ m) h f = ground (arith, Fresh-insert i k v m h f.1)

  pub All-insert {κ} :
      (P : K × V → Type κ) (k : K) (v : V) (m : Map K V) → P (k, v) → All P m → All P (insert k v m)
  unfolding insert
  All-insert P k v [] p a = (p, tt)
  All-insert P k v ((j, w) ∷ m) p a = elim (e.dec j k) [
    | yes same ↦ rw (if_pos (e.dec j k) same) (p, a.1)
    | no other ↦ rw (if_neg (e.dec j k) other) (a.0, All-insert P k v m p a.1)
  ]

  pub All-lookup {κ} :
      (P : K × V → Type κ) (k : K) (v : V) (m : Map K V) → lookup k m ≡ some v → All P m → P (k, v)
  unfolding lookup
  All-lookup P k v [] h a = cc
  All-lookup P k v ((j, w) ∷ m) h a = elim (e.dec j k) [
    | yes same ↦
        let hit : some w ≡ some v = rw (if_pos (e.dec j k) same) at h in
        let wv : w ≡ v = cc in subst₂ (λ i x. P (i, x)) same wv a.0
    | no other ↦ All-lookup P k v m (rw (if_neg (e.dec j k) other) at h) a.1
  ]

  pub Distinct-insert : (k : K) (v : V) (m : Map K V) → Distinct m → Distinct (insert k v m)
  unfolding insert
  Distinct-insert k v [] d = (tt, tt)
  Distinct-insert k v ((j, w) ∷ m) d =
      ground (arith, Distinct-insert k v m d.1, Fresh-insert j k v m)

module _ {ℓ} {K V : Type ℓ} (p : K × V → Bool) where
  pub Fresh-keep : (k : K) (m : Map K V) → Fresh k m → Fresh k (keep p m)
  Fresh-keep k [] f = tt
  Fresh-keep k ((j, v) ∷ m) f = ground (arith, Fresh-keep k m f.1)

  pub Distinct-keep : (m : Map K V) → Distinct m → Distinct (keep p m)
  Distinct-keep [] d = tt
  Distinct-keep ((j, v) ∷ m) d = ground (arith, Distinct-keep m d.1, Fresh-keep j m d.0)

instance abbrev pub nat_key : Key ℕ
nat_key = record { dec = ℕ_discrete }
