-- ===== src/Memory.antt =====
-- server/internal/web/memory.go: the leak-or-burst verdict on the memory of a fleet. Byte counts are
-- numbers below 2^64.
mod Samples
pub mod Leak
mod Tests
use maping.Base.{
  ℕ, zero, suc, ◌-◌, ◌*◌, ◌/◌, ◌^◌, Bool, true, false, not, ◌&&◌, ◌||◌, List, [], ◌∷◌, ◌++◌, map,
  length, get_or, take, drop, keep, ltb, leb, ◌==◌, if◌then◌else◌,
}
use maping.Base.Bytes.{Bytes, codes}
use maping.Base.Word.{sub64}
use maping.Float.{Float}
use maping.Format.{Strconv, times_sign, long_dash, fmt_bytes, fmt_ratio}
use maping.Verdict.{DotClass, dot_muted, dot_ok, dot_warn, dot_err}
pub use maping.Memory.Samples.{MemoryTrendPoint}
unfoldable pub use maping.Memory.Samples.{
  leak_rise_floor_bytes, samples, post_gc_samples, inuse_samples, max_from, max_u64, min_from,
  min_u64, leak_floor_met, first_half_high, second_half_low, sustained,
}

pub data Trend : Type 0 where
  unknown : Trend
  leak : Trend
  burst : Trend
  stable : Trend

pub record MemoryVerdict : Type 0 where
  pub level : Trend
  pub dot_class : DotClass
  pub sentence : Bytes
  pub confidence : Bytes
  pub evidence : List Bytes
  pub falsifier : Bytes
  pub show : Bool

unfoldable pub min_memory_samples : ℕ
min_memory_samples = 4

unfoldable pub confident_samples : ℕ
confident_samples = 8

abbrev arrow : Bytes
arrow = 226 ∷ 134 ∷ 146 ∷ []

abbrev short_dash : Bytes
short_dash = 226 ∷ 128 ∷ 147 ∷ []

module _ (fl : Float) where
  open fl use {F, lit, lt, le, mul, div, of_ℕ}

  unfoldable pub leak_rise_ratio : F
  leak_rise_ratio = lit 3 2

  unfoldable pub burst_peak_ratio : F
  burst_peak_ratio = lit 3 2

  unfoldable pub burst_return_ratio : F
  burst_return_ratio = lit 6 5

  unfoldable pub leak_strong_ratio : F
  leak_strong_ratio = lit 2 1

  unfoldable pub leak_ratio_met : ℕ → ℕ → Bool
  leak_ratio_met first last = le (mul leak_rise_ratio (of_ℕ first)) (of_ℕ last)

  unfoldable pub is_burst : ℕ → ℕ → ℕ → ℕ → ℕ → Bool
  is_burst first last first_inuse peak_post_gc peak_inuse =
      let spiked =
        le (mul burst_peak_ratio (of_ℕ first)) (of_ℕ peak_post_gc)
        || ltb 0 first_inuse && le (mul burst_peak_ratio (of_ℕ first_inuse)) (of_ℕ peak_inuse) in
      let returned = le (of_ℕ last) (mul burst_return_ratio (of_ℕ first)) in spiked && returned

  unfoldable pub confidence_tier : Bool → Bytes
  confidence_tier high = if high then codes "High" else codes "Medium"

  module _ (go : Strconv F) where
    open go use {format_uint}

    unfoldable pub mem_bytes : ℕ → Bytes
    mem_bytes v = fmt_bytes fl go (of_ℕ v)

    unfoldable pub leak_evidence : ℕ → ℕ → ℕ → ℕ → ℕ → List Bytes
    leak_evidence first last second_low first_high n =
        (codes "Post-GC live heap: "
          ++ mem_bytes first
          ++ codes " at window start "
          ++ arrow
          ++ codes " "
          ++ mem_bytes last
          ++ codes " at end ("
          ++ fmt_ratio fl go (div (of_ℕ last) (of_ℕ first))
          ++ codes " over "
          ++ format_uint n
          ++ codes " buckets).")
        ∷ (codes "Rise of "
            ++ mem_bytes (sub64 last first)
            ++ codes " clears the "
            ++ mem_bytes leak_rise_floor_bytes
            ++ codes " noise floor.")
        ∷ (codes "Sustained: the second half's low ("
            ++ mem_bytes second_low
            ++ codes ") sits at or above the first half's high ("
            ++ mem_bytes first_high
            ++ codes ").")
        ∷ []

    unfoldable pub leak_verdict : ℕ → ℕ → ℕ → ℕ → ℕ → MemoryVerdict
    leak_verdict first last second_low first_high n = record {
      level = leak;
      dot_class = dot_err;
      sentence =
          codes "Post-GC heap rose "
          ++ mem_bytes first
          ++ codes " "
          ++ arrow
          ++ codes " "
          ++ mem_bytes last
          ++ codes " and held "
          ++ long_dash
          ++ codes " likely a leak.";
      confidence =
          confidence_tier
            (le leak_strong_ratio (div (of_ℕ last) (of_ℕ first)) && leb confident_samples n);
      evidence = leak_evidence first last second_low first_high n;
      falsifier =
          codes "Not a leak if the heap returns to ~"
          ++ mem_bytes first
          ++ codes " after the next GC "
          ++ long_dash
          ++ codes " re-check over a longer window.";
      show = true;
    }

    unfoldable pub burst_evidence : ℕ → ℕ → ℕ → ℕ → ℕ → List Bytes
    burst_evidence first last peak_post_gc peak_inuse first_inuse =
        let in_use = ltb 0 first_inuse && ltb peak_post_gc peak_inuse in
        let peak = if in_use then peak_inuse else peak_post_gc in
        let base = if in_use then first_inuse else first in
        let ratio = if ltb 0 base then div (of_ℕ peak) (of_ℕ base) else lit 0 1 in
        (codes "Peak heap "
          ++ mem_bytes peak
          ++ codes " reached "
          ++ fmt_ratio fl go ratio
          ++ codes " the "
          ++ mem_bytes base
          ++ codes " baseline mid-window.")
        ∷ (codes "Last bucket back to "
            ++ mem_bytes last
            ++ codes ", within "
            ++ fmt_ratio fl go burst_return_ratio
            ++ codes " of the "
            ++ mem_bytes first
            ++ codes " start.")
        ∷ []

    unfoldable pub burst_verdict : ℕ → ℕ → ℕ → ℕ → ℕ → ℕ → MemoryVerdict
    burst_verdict first last peak_post_gc peak_inuse first_inuse n = record {
      level = burst;
      dot_class = dot_warn;
      sentence =
          codes "Post-GC heap peaked at "
          ++ mem_bytes peak_post_gc
          ++ codes " then returned to "
          ++ mem_bytes last
          ++ codes " "
          ++ long_dash
          ++ codes " an allocation burst, not a leak.";
      confidence = confidence_tier (leb confident_samples n);
      evidence = burst_evidence first last peak_post_gc peak_inuse first_inuse;
      falsifier =
          codes "A true leak if the baseline keeps climbing next window instead of holding near "
          ++ mem_bytes first
          ++ codes ".";
      show = true;
    }

    unfoldable pub stable_evidence : ℕ → ℕ → ℕ → List Bytes
    stable_evidence low high n =
        let ratio = if ltb 0 low then div (of_ℕ high) (of_ℕ low) else lit 1 1 in
        (codes "Post-GC live heap ranged "
          ++ mem_bytes low
          ++ short_dash
          ++ mem_bytes high
          ++ codes " over "
          ++ format_uint n
          ++ codes " buckets ("
          ++ fmt_ratio fl go ratio
          ++ codes " spread).")
        ∷ (codes "No sustained rise above the "
            ++ mem_bytes leak_rise_floor_bytes
            ++ codes " noise floor.")
        ∷ []

    unfoldable pub stable_verdict : ℕ → ℕ → ℕ → MemoryVerdict
    stable_verdict low high n = record {
      level = stable;
      dot_class = dot_ok;
      sentence =
          codes "Post-GC heap held near "
          ++ mem_bytes low
          ++ codes " across the window "
          ++ long_dash
          ++ codes " no leak signal.";
      confidence = confidence_tier (leb confident_samples n);
      evidence = stable_evidence low high n;
      falsifier = [];
      show = true;
    }

    unfoldable pub unknown_verdict : ℕ → MemoryVerdict
    unknown_verdict n = record {
      level = unknown;
      dot_class = dot_muted;
      sentence =
          codes "Insufficient memory samples (n="
          ++ format_uint n
          ++ codes ") "
          ++ long_dash
          ++ codes " no leak/burst verdict this window.";
      confidence = [];
      evidence = [];
      falsifier = [];
      show = false;
    }

    -- The verdict on enough samples.
    unfoldable pub judge : List ℕ → List ℕ → MemoryVerdict
    judge post_gc inuse =
        let n = length post_gc in
        let first = get_or post_gc 0 0 in
        let last = get_or post_gc (n - 1) 0 in
        let first_inuse = get_or inuse 0 0 in
        let peak_post_gc = max_u64 post_gc in
        let peak_inuse = max_u64 inuse in
        if leak_ratio_met first last && leak_floor_met first last && sustained post_gc
        then leak_verdict first last (second_half_low post_gc) (first_half_high post_gc) n
        else if is_burst first last first_inuse peak_post_gc peak_inuse
        then burst_verdict first last peak_post_gc peak_inuse first_inuse n
        else stable_verdict (min_u64 post_gc) peak_post_gc n

    unfoldable pub compute_memory_verdict : List MemoryTrendPoint → MemoryVerdict
    compute_memory_verdict points =
        let post_gc = post_gc_samples points in
        if ltb (length post_gc) min_memory_samples
        then unknown_verdict (length post_gc)
        else judge post_gc (inuse_samples points)
