-- ===== src/Panels/Shares.antt =====
-- What the panels on downstream time and on versions show.
use maping.Base.{
  ℕ, ◌+◌, ◌≤◌, ◌<◌, ◌^◌, ◌≡◌, refl, sym, ◌⊎◌, inl, inr, true, false, not, ◌&&◌, List, [], ◌∷◌, All,
  ltb, Bool-cases, arith,
}
use maping.Base.Bytes.{Bytes, is_empty}
use maping.Base.Word.{sub64}
use maping.Stats.{VersionStat, DownstreamStat}
use maping.Panels.{dominant_version, dominant_from}
use maping.Panels.Fleet.{down_ns, self_ns}

-- The two parts of the bar are parts of the total: the downstream time is no more than it, and the
-- subtraction that gives the endpoint's own time does not wrap, if the total is a 64-bit word.
pub self-down_lem :
    (s : DownstreamStat)
    → s.sum_duration_ns < 2 ^ 64
    → (down_ns s ≤ s.sum_duration_ns) × (self_ns s + down_ns s ≡ s.sum_duration_ns)
unfolding down_ns self_ns sub64
self-down_lem s h = ground arith

module _ {F : Type 0} where
  -- A version of this name with this many requests is among the statistics.
  pub Serves : Bytes → ℕ → List (VersionStat F) → Type 0
  Serves v n [] = ⊥
  Serves v n (s ∷ ss) = (s.version ≡ v) × (s.count ≡ n) × (is_empty v ≡ false) ⊎ Serves v n ss

  -- No version with a name has more requests.
  pub MostlyAt : ℕ → List (VersionStat F) → Type 0
  MostlyAt n ss = All (λ (s : VersionStat F). (is_empty s.version ≡ true) ⊎ (s.count ≤ n)) ss

  Found : Bytes → ℕ → List (VersionStat F) → Bytes → ℕ → Type 0
  Found best most ss v n = ((v ≡ best) × (n ≡ most) ⊎ Serves v n ss) × (most ≤ n) × MostlyAt n ss

  better_later :
      (best v : Bytes) (most n : ℕ) (s : VersionStat F) (ss : List (VersionStat F))
      → (not (is_empty s.version) && ltb most s.count) ≡ true
      → Found s.version s.count ss v n
      → Found best most (s ∷ ss) v n
  unfolding Found Serves MostlyAt
  better_later best v most n s ss e (inl (p, q), least, rest) =
      (inr (inl (sym p, sym q, rw p (ground arith))), ground arith, (inr least, rest))
  better_later best v most n s ss e (inr w, least, rest) =
      (inr (inr w), ground arith, (inr least, rest))

  same_later :
      (best v : Bytes) (most n : ℕ) (s : VersionStat F) (ss : List (VersionStat F))
      → (not (is_empty s.version) && ltb most s.count) ≡ false
      → Found best most ss v n
      → Found best most (s ∷ ss) v n
  unfolding Found Serves MostlyAt
  same_later best v most n s ss e (inl w, least, rest) = (inl w, least, (ground arith, rest))
  same_later best v most n s ss e (inr w, least, rest) = (inr (inr w), least, (ground arith, rest))

  dominant_step :
      (best : Bytes) (most : ℕ) (s : VersionStat F) (ss : List (VersionStat F))
      → ((b : Bytes) (m : ℕ) → (n : ℕ) × Found b m ss (dominant_from b m ss) n)
      → (n : ℕ) × Found best most (s ∷ ss) (dominant_from best most (s ∷ ss)) n
  unfolding dominant_from
  dominant_step best most s ss rest =
      elim (Bool-cases (not (is_empty s.version) && ltb most s.count)) [
        | inl e ↦
            let (n, found) = rest s.version s.count in
            rw e (n, better_later best _ most n s ss e found)
        | inr e ↦ let (n, found) = rest best most in rw e (n, same_later best _ most n s ss e found)
      ]

  dominant_from_lem :
      (best : Bytes) (most : ℕ) (ss : List (VersionStat F))
      → (n : ℕ) × Found best most ss (dominant_from best most ss) n
  unfolding Found MostlyAt dominant_from
  dominant_from_lem best most [] = (most, (inl (refl, refl), omega arith, tt))
  dominant_from_lem best most (s ∷ ss) =
      dominant_step best most s ss (λ b m. dominant_from_lem b m ss)

  -- The dominant version is the name of a version among the statistics, and no version with a name
  -- has more requests than it; or it is empty, and no version with a name has any request.
  pub dominant_version_lem :
      (stats : List (VersionStat F))
      → (n : ℕ) × ((dominant_version stats ≡ []) × (n ≡ 0)
          ⊎ Serves (dominant_version stats) n stats)
        × MostlyAt n stats
  unfolding dominant_version Found
  dominant_version_lem stats =
      let (n, found) = dominant_from_lem [] 0 stats in (n, found.0, found.2)
