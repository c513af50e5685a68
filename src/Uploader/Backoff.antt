-- ===== src/Uploader/Backoff.antt =====
-- The delay between attempts, and the size of the ring.
use maping.Base.{ℕ, zero, suc, ◌+◌, ◌*◌, ◌/◌, ◌≤◌, ◌<◌, List, [], ◌∷◌, arith, max, false}
use maping.Uploader.{
  base_backoff, next_backoff, min_ring_capacity, ring_windows_span, ring_capacity, second, retries,
  Event,
}

-- The delay before the n-th retry of a run of failures.
abbrev delay_after : ℕ → ℕ
delay_after zero = base_backoff
delay_after (suc n) = next_backoff (delay_after n)

span_lem : (q : ℕ) → 0 < q → 300 < (300 / q + 1) * q
span_lem q h = grind arith

-- The ring has room for at least eight windows, for every flush window, and for five minutes of
-- windows, counted in whole seconds and to within one window.
pub ring_capacity_bounds :
    (w : ℕ)
    → (min_ring_capacity ≤ ring_capacity w)
      × (ring_windows_span < (ring_capacity w + 1) * max (w / second) 1)
unfolding ring_capacity min_ring_capacity ring_windows_span
ring_capacity_bounds w =
    (omega arith, capacity_span (max (w / second) 1) (span_lem (max (w / second) 1) (omega arith)))
  where
    capacity_span : (q : ℕ) → 300 < (300 / q + 1) * q → 300 < (max 8 (300 / q) + 1) * q
    capacity_span q h = grind arith

module _ {S : Type 0} where
  -- n refused uploads in a row.
  abbrev pub refusals : ℕ → List (Event S)
  refusals zero = []
  refusals (suc n) = retries false ∷ refusals n
