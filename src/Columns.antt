-- ===== src/Columns.antt =====
-- server/internal/storage/row.go: the map columns of a row, sorted by key, and read back.
-- A map ranges over its list; the order of keys is a Boolean test, cmp.Compare being at most 0.
-- slices.SortFunc is an insertion sort here: on distinct keys every sort gives the same list.
pub mod Round
mod Tests
use maping.Base.{ℕ, Bool, true, false, List, [], ◌∷◌, ◌%◌, leb, if◌then◌else◌, map}
use maping.Base.Assoc.{Map, Key, insert, nat_key}

module _ {K : Type 0} (le : K → K → Bool) where
  unfoldable pub insert_sorted : K → ℕ → Map K ℕ → Map K ℕ
  insert_sorted k c [] = (k, c) ∷ []
  insert_sorted k c ((j, d) ∷ m) =
      let rest = insert_sorted k c m in if le k j then (k, c) ∷ (j, d) ∷ m else (j, d) ∷ rest

  unfoldable pub sorted_by_key : Map K ℕ → Map K ℕ
  sorted_by_key [] = []
  sorted_by_key ((k, c) ∷ m) = insert_sorted k c (sorted_by_key m)

-- uint8(k) of each key.
unfoldable pub narrowed : Map ℕ ℕ → Map ℕ ℕ
narrowed [] = []
narrowed ((k, c) ∷ m) = (k % 256, c) ∷ narrowed m

unfoldable pub sorted_no_status_reasons : Map ℕ ℕ → Map ℕ ℕ
sorted_no_status_reasons m = sorted_by_key leb (narrowed m)

module _ {K : Type 0} ⦃e : Key K⦄ where
  -- The loop of sketchMap, statusCodeMap, errorClassMap and noStatusReasonMap.
  unfoldable pub read_back : Map K ℕ → Map K ℕ → Map K ℕ
  read_back acc [] = acc
  read_back acc ((k, c) ∷ m) = read_back (insert k c acc) m
