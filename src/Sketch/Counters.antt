-- ===== src/Sketch/Counters.antt =====
-- The array of counters: what `bump` and `add_buckets` do to its length, sum and elements.
use mathlib.Core.List.{List, [], ◌∷◌}
use maping.Base.{
  ℕ, zero, suc, ◌<◌, ◌≡◌, refl, ap, ◌∙◌, sym, ◌≢◌, length, get_or, replicate, All, arith,
  length-set, get_or-set_self, get_or-set_ne,
}
use maping.Base.Word.{add64, add64-lt, add64_comm, add64_assoc, add64-zero, zero-add64, u64_mod}
use maping.Sketch.{DdSketch, bump, add_buckets}

-- An equation between sketches is one of their fields.
pub DdSketch_ext : (s t : DdSketch) → s.buckets ≡ t.buckets → s.count ≡ t.count → s ≡ t
DdSketch_ext s t p q = ground arith

abbrev pub IsWord : ℕ → Type 0
IsWord n = n < u64_mod

-- The sum of the counters as Go would compute it.
unfoldable pub sum64 : List ℕ → ℕ
sum64 [] = 0
sum64 (b ∷ bs) = add64 b (sum64 bs)

pub sum64-lt : (bs : List ℕ) → sum64 bs < u64_mod
unfolding sum64
sum64-lt [] = omega arith
sum64-lt (b ∷ bs) = add64-lt b (sum64 bs)

pub length-bump : (bs : List ℕ) (i c : ℕ) → length (bump bs i c) ≡ length bs
unfolding bump
length-bump bs i c = length-set bs i _

pub sum64-bump : (bs : List ℕ) (i c : ℕ) → i < length bs → sum64 (bump bs i c) ≡ add64 (sum64 bs) c
unfolding sum64 bump
sum64-bump [] i c h = absurd (omega arith)
sum64-bump (b ∷ bs) zero c h = unfold add64 in omega arith
sum64-bump (b ∷ bs) (suc i) c h =
    ap (add64 b) (sum64-bump bs i c (omega arith)) ∙ sym (add64_assoc b (sum64 bs) c)

pub bump_self :
    (bs : List ℕ) (i c : ℕ) → i < length bs → get_or (bump bs i c) i 0 ≡ add64 (get_or bs i 0) c
unfolding bump
bump_self bs i c h = get_or-set_self bs i _ 0 h

pub bump_ne : (bs : List ℕ) (i j c : ℕ) → i ≢ j → get_or (bump bs i c) j 0 ≡ get_or bs j 0
unfolding bump
bump_ne bs i j c h = get_or-set_ne bs i j _ 0 h

pub bump-IsWord : (bs : List ℕ) (i c : ℕ) → All IsWord bs → All IsWord (bump bs i c)
unfolding bump
bump-IsWord [] i c w = tt
bump-IsWord (b ∷ bs) zero c w = (add64-lt b c, w.1)
bump-IsWord (b ∷ bs) (suc i) c w = (w.0, bump-IsWord bs i c w.1)

pub zeros-IsWord : (n : ℕ) → All IsWord (replicate n 0)
zeros-IsWord zero = tt
zeros-IsWord (suc n) = (omega arith, zeros-IsWord n)

pub sum64-zeros : (n : ℕ) → sum64 (replicate n 0) ≡ 0
unfolding sum64
sum64-zeros zero = refl
sum64-zeros (suc n) = ap (add64 0) (sum64-zeros n) ∙ zero-add64 0 (omega arith)

pub get_or-zeros : (n i : ℕ) → get_or {A = ℕ} (replicate n 0) i 0 ≡ 0
get_or-zeros zero i = refl
get_or-zeros (suc n) zero = refl
get_or-zeros (suc n) (suc i) = get_or-zeros n i

pub length-add_buckets : (bs os : List ℕ) → length (add_buckets bs os) ≡ length bs
unfolding add_buckets
length-add_buckets [] os = refl
length-add_buckets (b ∷ bs) [] = refl
length-add_buckets (b ∷ bs) (o ∷ os) = ap suc (length-add_buckets bs os)

pub sum64-add_buckets :
    (bs os : List ℕ)
    → length bs ≡ length os
    → sum64 (add_buckets bs os) ≡ add64 (sum64 bs) (sum64 os)
unfolding sum64 add_buckets
sum64-add_buckets [] [] h = unfold add64 in refl
sum64-add_buckets [] (o ∷ os) h = absurd (omega arith)
sum64-add_buckets (b ∷ bs) [] h = absurd (omega arith)
sum64-add_buckets (b ∷ bs) (o ∷ os) h =
    ap (add64 (add64 b o)) (sum64-add_buckets bs os (omega arith)) ∙ unfold add64 in omega arith

pub get_or-add_buckets :
    (bs os : List ℕ) (i : ℕ)
    → length bs ≡ length os
    → get_or (add_buckets bs os) i 0 ≡ add64 (get_or bs i 0) (get_or os i 0)
unfolding add_buckets
get_or-add_buckets [] [] i h = unfold add64 in refl
get_or-add_buckets [] (o ∷ os) i h = absurd (omega arith)
get_or-add_buckets (b ∷ bs) [] i h = absurd (omega arith)
get_or-add_buckets (b ∷ bs) (o ∷ os) zero h = refl
get_or-add_buckets (b ∷ bs) (o ∷ os) (suc i) h = get_or-add_buckets bs os i (omega arith)

pub add_buckets-IsWord : (bs os : List ℕ) → All IsWord bs → All IsWord (add_buckets bs os)
unfolding add_buckets
add_buckets-IsWord [] os w = tt
add_buckets-IsWord (b ∷ bs) [] w = w
add_buckets-IsWord (b ∷ bs) (o ∷ os) w = (add64-lt b o, add_buckets-IsWord bs os w.1)

pub add_buckets-bump :
    (bs os : List ℕ) (i c : ℕ)
    → length bs ≡ length os
    → add_buckets bs (bump os i c) ≡ bump (add_buckets bs os) i c
unfolding add_buckets bump
add_buckets-bump [] [] i c h = refl
add_buckets-bump [] (o ∷ os) i c h = absurd (omega arith)
add_buckets-bump (b ∷ bs) [] i c h = absurd (omega arith)
add_buckets-bump (b ∷ bs) (o ∷ os) zero c h =
    ap (λ x. x ∷ add_buckets bs os) (sym (add64_assoc b o c))
add_buckets-bump (b ∷ bs) (o ∷ os) (suc i) c h =
    ap (◌∷◌ (add64 b o)) (add_buckets-bump bs os i c (omega arith))

pub add_buckets-zeros : (bs : List ℕ) (n : ℕ) → All IsWord bs → add_buckets bs (replicate n 0) ≡ bs
unfolding add_buckets
add_buckets-zeros [] n w = refl
add_buckets-zeros (b ∷ bs) zero w = refl
add_buckets-zeros (b ∷ bs) (suc n) w = cc (add64-zero b w.0, add_buckets-zeros bs n w.1)

pub add_buckets_comm :
    (bs os : List ℕ) → length bs ≡ length os → add_buckets bs os ≡ add_buckets os bs
unfolding add_buckets
add_buckets_comm [] [] h = refl
add_buckets_comm [] (o ∷ os) h = absurd (omega arith)
add_buckets_comm (b ∷ bs) [] h = absurd (omega arith)
add_buckets_comm (b ∷ bs) (o ∷ os) h = cc (add64_comm b o, add_buckets_comm bs os (omega arith))

pub add_buckets_assoc :
    (bs os ps : List ℕ)
    → length bs ≡ length os
    → add_buckets (add_buckets bs os) ps ≡ add_buckets bs (add_buckets os ps)
unfolding add_buckets
add_buckets_assoc [] os ps h = refl
add_buckets_assoc (b ∷ bs) [] ps h = absurd (omega arith)
add_buckets_assoc (b ∷ bs) (o ∷ os) [] h = refl
add_buckets_assoc (b ∷ bs) (o ∷ os) (p ∷ ps) h =
    cc (add64_assoc b o p, add_buckets_assoc bs os ps (omega arith))
