-- ===== src/Ring.antt =====
-- client/internal/buffer/buffer.go: the drop-oldest ring of pending uploads. A pointer is an
-- `Option`, `none` being nil; the ring holds any type of element.
pub mod View
pub mod Refinement
mod Tests
use maping.Base.{
  ℕ, suc, ◌+◌, ◌-◌, ◌%◌, Option, none, some, List, length, get_or, set, replicate, ◌==◌,
  if◌then◌else◌,
}
use maping.Base.Int.{ℤ, pos, pos_part, ltb_ℤ}

pub record Ring {ℓ} (A : Type ℓ) : Type ℓ where
  pub buf : List (Option A)
  pub head : ℕ
  pub count : ℕ

module _ {ℓ} {A : Type ℓ} where
  unfoldable pub new : ℤ → Ring A
  new capacity =
      let n = if ltb_ℤ capacity (pos 1) then 1 else pos_part capacity in
      record { buf = replicate n none; head = 0; count = 0 }

  -- The three lines that take the oldest element out, in `Push` and in `PopOldest`.
  unfoldable pub vacate : Ring A → Ring A
  vacate r = record {
    buf = set r.buf r.head none;
    head = (r.head + 1) % length r.buf;
    count = r.count - 1;
  }

  -- The last lines of `Push`: the new element goes behind the newest.
  unfoldable pub put : Ring A → A → Ring A
  put r req = record r {
    buf = set r.buf ((r.head + r.count) % length r.buf) (some req);
    count = r.count + 1;
  }

  unfoldable pub push : Ring A → A → Ring A × Option A
  push r req =
      if r.count == length r.buf
      then (put (vacate r) req, get_or r.buf r.head none)
      else (put r req, none)

  unfoldable pub peek : Ring A → Option A
  peek r = if r.count == 0 then none else get_or r.buf r.head none

  unfoldable pub pop_oldest : Ring A → Ring A × Option A
  pop_oldest r = if r.count == 0 then (r, none) else (vacate r, get_or r.buf r.head none)

  unfoldable pub len : Ring A → ℕ
  len r = r.count
