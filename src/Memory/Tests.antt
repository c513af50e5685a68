-- ===== src/Memory/Tests.antt =====
-- A heap that climbs, and one that has too few samples.
use maping.Base.{
  ℕ, ◌≡◌, refl, ◌↔◌, ◌<◌, ◌≤◌, ◌+◌, ◌-◌, ◌*◌, ◌/◌, ◌^◌, false, List, [], ◌∷◌, All, length, get_or,
  take, drop, arith,
}
use maping.Format.Digits.{last_digit}
use maping.Sketch.Whole.{whole}
use maping.Memory.{
  unknown, leak, MemoryTrendPoint, compute_memory_verdict, post_gc_samples, samples, judge,
  leak_verdict, leak_ratio_met, leak_floor_met, leak_rise_ratio, leak_rise_floor_bytes, sustained,
  first_half_high, second_half_low, max_u64, max_from, min_u64, min_from, min_memory_samples,
}
use maping.Base.Word.{sub64}
use maping.Memory.Leak.{compute_memory_verdict-unknown, leak_held, StepsUp}

abbrev at_mib : ℕ → MemoryTrendPoint
at_mib n = record { post_gc_heap_bytes = n * 2 ^ 20; heap_inuse_bytes = n * 2 ^ 20 }

abbrev climb : List MemoryTrendPoint
climb = at_mib 10 ∷ at_mib 0 ∷ at_mib 20 ∷ at_mib 60 ∷ at_mib 80 ∷ []

climb_leaks : (compute_memory_verdict whole last_digit climb).level ≡ leak
unfolding compute_memory_verdict post_gc_samples samples judge leak_verdict leak_ratio_met
    leak_floor_met leak_rise_ratio leak_rise_floor_bytes sustained first_half_high second_half_low
    max_u64 max_from min_u64 min_from min_memory_samples sub64
climb_leaks = refl

climb_small : All (λ (x : ℕ). x < 2 ^ 63) (post_gc_samples climb)
unfolding post_gc_samples samples
climb_small = (omega arith, (omega arith, (omega arith, (omega arith, tt))))

compute_memory_verdict-unknown_example :
    let v = compute_memory_verdict whole last_digit (at_mib 10 ∷ []) in
    ((v.level ≡ unknown) ↔ (length (post_gc_samples (at_mib 10 ∷ [])) < 4))
    × ((v.show ≡ false) ↔ (length (post_gc_samples (at_mib 10 ∷ [])) < 4))
compute_memory_verdict-unknown_example =
    compute_memory_verdict-unknown whole last_digit (at_mib 10 ∷ [])

leak_held_example :
    let xs = post_gc_samples climb in
    (4 ≤ length xs)
    × (get_or xs 0 0 + 32 * 2 ^ 20 ≤ get_or xs (length xs - 1) 0)
    × StepsUp (take (length xs / 2) xs) (drop (length xs / 2) xs)
leak_held_example = leak_held whole last_digit climb climb_small climb_leaks
