-- ===== src/Memory/Leak.antt =====
-- What a leak verdict on the memory tells, and when there is no verdict.
use maping.Base.{
  ℕ, zero, suc, ◌+◌, ◌-◌, ◌*◌, ◌/◌, ◌^◌, ◌≤◌, ◌<◌, ◌≡◌, refl, ◌≢◌, ◌↔◌, inl, inr, true, false, List,
  [], ◌∷◌, length, get_or, take, drop, All, ltb, Bool-cases, arith, leb→le, ltb→lt,
}
use maping.Base.Word.{sub64}
use maping.Float.{Float}
use maping.Format.{Strconv}
use maping.Memory.{
  unknown, leak, MemoryTrendPoint, post_gc_samples, inuse_samples, max_from, max_u64, min_from,
  min_u64, leak_floor_met, first_half_high, second_half_low, sustained, judge,
  compute_memory_verdict, leak_rise_floor_bytes, min_memory_samples, leak_verdict, burst_verdict,
  stable_verdict, unknown_verdict,
}

max_from-le : (b m : ℕ) (xs : List ℕ) → max_from m xs ≤ b → (m ≤ b) × All (λ (x : ℕ). x ≤ b) xs
unfolding max_from
max_from-le b m [] h = (h, tt)
max_from-le b m (x ∷ xs) h = elim (Bool-cases (ltb m x)) [
  | inl e ↦
      let h' : max_from x xs ≤ b = rw e at h in
      let (hx, k) = max_from-le b x xs h' in (ground arith, (hx, k))
  | inr e ↦
      let h' : max_from m xs ≤ b = rw e at h in
      let (hm, k) = max_from-le b m xs h' in (hm, (ground arith, k))
]

le-min_from : (b m : ℕ) (xs : List ℕ) → b ≤ min_from m xs → (b ≤ m) × All (λ (x : ℕ). b ≤ x) xs
unfolding min_from
le-min_from b m [] h = (h, tt)
le-min_from b m (x ∷ xs) h = elim (Bool-cases (ltb x m)) [
  | inl e ↦
      let h' : b ≤ min_from x xs = rw e at h in
      let (hx, k) = le-min_from b x xs h' in (ground arith, (hx, k))
  | inr e ↦
      let h' : b ≤ min_from m xs = rw e at h in
      let (hm, k) = le-min_from b m xs h' in (hm, (ground arith, k))
]

le-max_u64 : (b : ℕ) (xs : List ℕ) → max_u64 xs ≤ b → All (λ (x : ℕ). x ≤ b) xs
unfolding max_u64
le-max_u64 b [] h = tt
le-max_u64 b (x ∷ xs) h = max_from-le b x xs h

le-min_u64 : (b : ℕ) (xs : List ℕ) → b ≤ min_u64 xs → All (λ (x : ℕ). b ≤ x) xs
unfolding min_u64
le-min_u64 b [] h = tt
le-min_u64 b (x ∷ xs) h = le-min_from b x xs h

-- Every number of the first list is at most every number of the second.
pub StepsUp : List ℕ → List ℕ → Type 0
StepsUp [] ys = Unit
StepsUp (x ∷ xs) ys = All (λ (y : ℕ). x ≤ y) ys × StepsUp xs ys

at_most : (b c : ℕ) (ys : List ℕ) → c ≤ b → All (λ (y : ℕ). b ≤ y) ys → All (λ (y : ℕ). c ≤ y) ys
at_most b c [] h _ = tt
at_most b c (y ∷ ys) h (p, k) = (omega arith, at_most b c ys h k)

below-StepsUp :
    (b : ℕ) (xs ys : List ℕ) → All (λ (x : ℕ). x ≤ b) xs → All (λ (y : ℕ). b ≤ y) ys → StepsUp xs ys
unfolding StepsUp
below-StepsUp b [] ys _ _ = tt
below-StepsUp b (x ∷ xs) ys (p, h) k = (at_most b x ys p k, below-StepsUp b xs ys h k)

sustained-StepsUp :
    (post_gc : List ℕ)
    → sustained post_gc ≡ true
    → StepsUp (take (length post_gc / 2) post_gc) (drop (length post_gc / 2) post_gc)
unfolding sustained first_half_high second_half_low
sustained-StepsUp post_gc h =
    let half = length post_gc / 2 in
    let b = max_u64 (take half post_gc) in
    below-StepsUp b (take half post_gc) (drop half post_gc)
      (le-max_u64 b (take half post_gc) (omega arith))
      (le-min_u64 b (drop half post_gc) (leb→le b (min_u64 (drop half post_gc)) h))

floor_rise :
    (first last : ℕ)
    → first < 2 ^ 63
    → last < 2 ^ 63
    → leak_floor_met first last ≡ true
    → first + 32 * 2 ^ 20 ≤ last
unfolding leak_floor_met leak_rise_floor_bytes sub64
floor_rise first last hf hl h = ground arith

get_or-All {κ} : (P : ℕ → Type κ) (xs : List ℕ) (i d : ℕ) → P d → All P xs → P (get_or xs i d)
get_or-All P [] i d h _ = h
get_or-All P (x ∷ xs) zero d h k = k.0
get_or-All P (x ∷ xs) (suc i) d h k = get_or-All P xs i d h k.1

module _ (fl : Float) (go : Strconv fl.F) where
  judge_known : (post_gc inuse : List ℕ) → (judge fl go post_gc inuse).level ≢ unknown
  unfolding judge leak_verdict burst_verdict stable_verdict
  judge_known post_gc inuse h = ground arith

  judge_shows : (post_gc inuse : List ℕ) → (judge fl go post_gc inuse).show ≡ true
  unfolding judge leak_verdict burst_verdict stable_verdict
  judge_shows post_gc inuse = ground arith

  judge_leak :
      (post_gc inuse : List ℕ)
      → (judge fl go post_gc inuse).level ≡ leak
      → (leak_floor_met (get_or post_gc 0 0) (get_or post_gc (length post_gc - 1) 0) ≡ true)
        × (sustained post_gc ≡ true)
  unfolding judge leak_verdict burst_verdict stable_verdict
  judge_leak post_gc inuse h = ground arith

  -- The verdict is unknown exactly below four samples, and exactly then it is not shown.
  pub compute_memory_verdict-unknown :
      (points : List MemoryTrendPoint)
      → let v = compute_memory_verdict fl go points in
        ((v.level ≡ unknown) ↔ (length (post_gc_samples points) < 4))
        × ((v.show ≡ false) ↔ (length (post_gc_samples points) < 4))
  unfolding compute_memory_verdict unknown_verdict min_memory_samples
  compute_memory_verdict-unknown points =
      let n = length (post_gc_samples points) in
      let known = judge_known (post_gc_samples points) (inuse_samples points) in
      let shows = judge_shows (post_gc_samples points) (inuse_samples points) in
      elim (Bool-cases (ltb n 4)) [
        | inl e ↦ rw e ((λ _. ltb→lt n 4 e, λ _. refl), (λ _. ltb→lt n 4 e, λ _. refl))
        | inr e ↦
            rw e
              ((λ h. absurd (known h), λ h. ground arith), (λ h. ground arith, λ h. ground arith))
      ]

  -- With byte counts below 2^63, a leak is called only on at least four samples, where the heap
  -- after collection ends at least 32 MiB above where it began, and no sample of the first half
  -- stands above any sample of the second half.
  pub leak_held :
      (points : List MemoryTrendPoint)
      → All (λ (x : ℕ). x < 2 ^ 63) (post_gc_samples points)
      → (compute_memory_verdict fl go points).level ≡ leak
      → let xs = post_gc_samples points in
        (4 ≤ length xs)
        × (get_or xs 0 0 + 32 * 2 ^ 20 ≤ get_or xs (length xs - 1) 0)
        × StepsUp (take (length xs / 2) xs) (drop (length xs / 2) xs)
  unfolding compute_memory_verdict unknown_verdict min_memory_samples
  leak_held points small h =
      let xs = post_gc_samples points in
      elim (Bool-cases (ltb (length xs) 4)) [
        | inl e ↦ let h' : unknown ≡ leak = rw e at h in ground arith
        | inr e ↦
            let h' : (judge fl go xs (inuse_samples points)).level ≡ leak = rw e at h in
            let (floor, held) = judge_leak xs (inuse_samples points) h' in
            (
              ground arith,
              floor_rise (get_or xs 0 0) (get_or xs (length xs - 1) 0)
                  (get_or-All (λ (x : ℕ). x < 2 ^ 63) xs 0 0 (omega arith) small)
                  (get_or-All (λ (x : ℕ). x < 2 ^ 63) xs (length xs - 1) 0 (omega arith) small)
                  floor,
              sustained-StepsUp xs held,
            )
      ]
