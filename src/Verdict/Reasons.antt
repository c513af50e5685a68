-- ===== src/Verdict/Reasons.antt =====
-- The sentence of a problem: which reasons it names, and in which order.
use maping.Base.{ℕ, ◌≡◌, ◌≢◌, inl, inr, true, false, List, [], All, Bool-cases, arith}
use mathlib.Core.List.{Perm}
use maping.Base.Bytes.{Bytes}
use maping.Base.Sort.{sort_by, sort_by-IsOrdered, sort_by-Perm, All-sort_by, IsOrdered}
use maping.Float.{Float}
use maping.Format.{Strconv}
use maping.Verdict.{
  Severity, sev_none, rank_of, is_none, Detail, Reason, stronger, reason_if, reasons,
}

stronger_asym : (a b : Reason) → stronger a b ≡ true → stronger b a ≡ false
unfolding stronger
stronger_asym a b h = ground arith

is_none_lem : (s : Severity) → is_none s ≡ false → s ≢ sev_none
unfolding is_none rank_of
is_none_lem s h e = ground arith

pub Firing : Reason → Type 0
Firing r = r.sev ≢ sev_none

reason_if-Firing :
    (s : Severity) (n : ℕ) (t : Bytes) (rest : List Reason)
    → All Firing rest
    → All Firing (reason_if s n t rest)
unfolding reason_if Firing
reason_if-Firing s n t rest h = elim (Bool-cases (is_none s)) [
  | inl e ↦ rw e h
  | inr e ↦ rw e (is_none_lem s e, h)
]

-- The reasons in the order of the sentence are those that fired, each once; none of them is of no
-- severity, and none is stronger than the one before it: the severity decides, and within one
-- severity latency comes before errors and errors before spread.
pub reasons_lem :
    (fl : Float) (go : Strconv fl.F) (d : Detail fl.F) (spread ratio : fl.F)
    (err spr lat : Severity)
    → let fired = reasons fl go d spread ratio err spr lat in
      Perm (sort_by stronger fired) fired
      × All Firing (sort_by stronger fired)
      × IsOrdered stronger (sort_by stronger fired)
unfolding reasons
reasons_lem fl go d spread ratio err spr lat = (
  sort_by-Perm stronger (reasons fl go d spread ratio err spr lat),
  All-sort_by stronger Firing (reasons fl go d spread ratio err spr lat)
      (reason_if-Firing lat 0 _ _ (reason_if-Firing err 1 _ _ (reason_if-Firing spr 2 _ [] tt))),
  sort_by-IsOrdered stronger stronger_asym (reasons fl go d spread ratio err spr lat),
)
