-- ===== src/Columns/Tests.antt =====
-- Columns at concrete inputs.
use maping.Base.{ℕ, ◌≡◌, true, false, [], ◌∷◌, leb, arith}
use maping.Base.Assoc.{Map, lookup, Distinct, nat_key}
use maping.Columns.{sorted_by_key, read_back}
use maping.Columns.Round.{IsSorted, column_lem}

abbrev status_codes : Map ℕ ℕ
status_codes = (500, 2) ∷ (200, 9) ∷ (404, 1) ∷ []

status_codes-Distinct : Distinct status_codes
status_codes-Distinct =
    ((λ e. omega (arith, e), (λ e. omega (arith, e), tt)), ((λ e. omega (arith, e), tt), (tt, tt)))

leb_total : (a b : ℕ) → leb a b ≡ false → leb b a ≡ true
leb_total a b h = ground arith

leb_trans : (a b c : ℕ) → leb a b ≡ true → leb b c ≡ true → leb a c ≡ true
leb_trans a b c h k = ground arith

column_lem_example :
    IsSorted leb (sorted_by_key leb status_codes)
    × Distinct (sorted_by_key leb status_codes)
    × ((j : ℕ) → lookup j (read_back [] (sorted_by_key leb status_codes)) ≡ lookup j status_codes)
column_lem_example = column_lem leb leb_total leb_trans status_codes status_codes-Distinct

abbrev reasons : Map ℕ ℕ
reasons = (5, 2) ∷ (1, 9) ∷ []

reasons-Distinct : Distinct reasons
reasons-Distinct = ((λ e. omega (arith, e), tt), (tt, tt))
