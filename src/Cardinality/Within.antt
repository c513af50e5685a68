-- ===== src/Cardinality/Within.antt =====
-- Calls of the guard in a row, by any tenants.
use maping.Base.{
  ℕ, ◌+◌, ◌≤◌, ◌<◌, ◌≡◌, refl, ◌∙◌, sym, Bool, true, not, some, List, [], ◌∷◌, length, keep, All,
  leb, if◌then◌else◌, arith, Bool-cases, inl, inr, ite, length-keep-le,
}
use mathlib.Core.Logic.{if_pos, if_neg}
use maping.Base.Int.{ℤ, pos}
use maping.Base.Bytes.{Bytes, bytes_key}
use maping.Base.Assoc.{lookup, insert, lookup-insert, length-insert}
use maping.Cardinality.{Cardinality, Seen, series_ttl, new, evict_stale, set_of, allow}
use maping.Cardinality.Allow.{live, admits, allow_swept}

pub record Call : Type 0 where
  pub tenant : Bytes
  pub key : Bytes
  pub capacity : ℤ
  pub now : ℕ

abbrev pub run : Cardinality → List Call → Cardinality
run c [] = c
run c (x ∷ calls) = run ((allow c x.tenant x.key x.capacity x.now).0) calls

-- What a call leaves for one tenant.
abbrev left : Cardinality → Call → Seen
left c x =
    let m = live c x.tenant x.now in if admits m x.key x.capacity then insert x.key x.now m else m

set_of-allow :
    (c : Cardinality) (x : Call) (u : Bytes)
    → set_of (allow c x.tenant x.key x.capacity x.now).0 u
      ≡ ite (bytes_key.dec x.tenant u) (left c x) (set_of c u)
set_of-allow c x u = (allow_swept c x.tenant x.key x.capacity x.now).1 u

length-live-le :
    (c : Cardinality) (t : Bytes) (now : ℕ) → length (live c t now) ≤ length (set_of c t)
unfolding evict_stale
length-live-le c t now = length-keep-le (λ e. not (leb (e.1 + series_ttl) now)) (set_of c t)

length-left-le :
    (c : Cardinality) (x : Call) (n : ℕ)
    → 0 < n
    → x.capacity ≡ pos n
    → length (set_of c x.tenant) ≤ n
    → length (left c x) ≤ n
length-left-le c x n h e le =
    let few = length-live-le c x.tenant x.now in
    let grown = length-insert x.key x.now (live c x.tenant x.now) in ground (arith, few, grown)

run-within :
    (n : ℕ) (c : Cardinality) (calls : List Call)
    → 0 < n
    → All (λ x. x.capacity ≡ pos n) calls
    → ((t : Bytes) → length (set_of c t) ≤ n)
    → (t : Bytes) → length (set_of (run c calls) t) ≤ n
run-within n c [] h a v t = v t
run-within n c (x ∷ calls) h a v t =
    run-within n ((allow c x.tenant x.key x.capacity x.now).0) calls h a.1
      (λ u. ground (arith, set_of-allow c x u, length-left-le c x n h a.0 (v x.tenant), v u)) t

-- Whatever calls a new guard gets, at whatever times, under one positive cap: no tenant ever has
-- more series tracked than the cap.
pub run_capped :
    (n : ℕ) (calls : List Call) (t : Bytes)
    → 0 < n
    → All (λ x. x.capacity ≡ pos n) calls
    → length (set_of (run new calls) t) ≤ n
unfolding new set_of lookup
run_capped n calls t h a = run-within n new calls h a (λ u. omega arith) t

-- The first hit of a filtered map, where the test passes it.
lookup-keep :
    (p : Bytes × ℕ → Bool) (k : Bytes) (t : ℕ) (m : Seen)
    → lookup k m ≡ some t
    → ((j : Bytes) → p (j, t) ≡ true)
    → lookup k (keep p m) ≡ some t
unfolding lookup
lookup-keep p k t [] e h = e
lookup-keep p k t ((j, s) ∷ m) e h = ground (arith, lookup-keep p k t m, h j)

lookup-live :
    (c : Cardinality) (tenant key : Bytes) (t now : ℕ)
    → lookup key (set_of c tenant) ≡ some t
    → now < t + series_ttl
    → lookup key (live c tenant now) ≡ some t
unfolding evict_stale
lookup-live c tenant key t now e h =
    lookup-keep (λ e. not (leb (e.1 + series_ttl) now)) key t (set_of c tenant) e
      (λ j. ground arith)

-- A series stays tracked from a time on: last seen then or later.
abbrev Kept : Cardinality → Bytes → Bytes → ℕ → Type 0
Kept c tenant key since = (t : ℕ) × (lookup key (set_of c tenant) ≡ some t) × (since ≤ t)

-- A call within the hour that follows.
abbrev pub Soon : ℕ → ℕ → Type 0
Soon since now = (since ≤ now) × (now < since + series_ttl)

left-Kept :
    (c : Cardinality) (x : Call) (key : Bytes) (since t : ℕ)
    → Soon since x.now
    → lookup key (set_of c x.tenant) ≡ some t
    → since ≤ t
    → (s : ℕ) × (lookup key (left c x) ≡ some s) × (since ≤ s)
left-Kept c x key since t soon e le =
    let m = live c x.tenant x.now in
    let here = lookup-live c x.tenant key t x.now e (omega (arith, soon.1, le)) in
    elim (Bool-cases (admits m x.key x.capacity)) [
      | inl yes_ ↦ elim (bytes_key.dec x.key key) [
        | yes same ↦ (
          x.now,
          rw yes_ (
              lookup-insert x.key key x.now m
              ∙ if_pos (bytes_key.dec x.key key) same (some x.now) (lookup key m)),
          soon.0,
        )
        | no other ↦ (
          t,
          rw yes_ (
              lookup-insert x.key key x.now m
              ∙ if_neg (bytes_key.dec x.key key) other (some x.now) (lookup key m)
              ∙ here),
          le,
        )
      ]
      | inr no_ ↦ (t, rw no_ here, le)
    ]

allow-Kept :
    (c : Cardinality) (x : Call) (tenant key : Bytes) (since : ℕ)
    → Soon since x.now
    → Kept c tenant key since
    → Kept ((allow c x.tenant x.key x.capacity x.now).0) tenant key since
allow-Kept c x tenant key since soon (t, e, le) = elim (bytes_key.dec x.tenant tenant) [
  | yes same ↦
      let (s, held, later) = left-Kept c x key since t soon (rw same e) le in
      let now =
        set_of-allow c x tenant
        ∙ if_pos (bytes_key.dec x.tenant tenant) same (left c x) (set_of c tenant) in
      (s, rw now held, later)
  | no other ↦
      let now =
        set_of-allow c x tenant
        ∙ if_neg (bytes_key.dec x.tenant tenant) other (left c x) (set_of c tenant) in
      (t, rw now e, le)
]

run-Kept :
    (c : Cardinality) (calls : List Call) (tenant key : Bytes) (since : ℕ)
    → All (λ x. Soon since x.now) calls
    → Kept c tenant key since
    → Kept (run c calls) tenant key since
run-Kept c [] tenant key since a k = k
run-Kept c (x ∷ calls) tenant key since a k =
    run-Kept ((allow c x.tenant x.key x.capacity x.now).0) calls tenant key since a.1
      (allow-Kept c x tenant key since a.0 k)

-- The admitted series itself, just after its call.
admitted-Kept :
    (c : Cardinality) (x : Call)
    → (allow c x.tenant x.key x.capacity x.now).1 ≡ true
    → Kept ((allow c x.tenant x.key x.capacity x.now).0) x.tenant x.key x.now
admitted-Kept c x h =
    let m = live c x.tenant x.now in
    let yes_ = sym (allow_swept c x.tenant x.key x.capacity x.now).0 ∙ h in
    let now =
      set_of-allow c x x.tenant
      ∙ if_pos (bytes_key.dec x.tenant x.tenant) refl (left c x) (set_of c x.tenant) in
    (
      x.now,
      rw (now, yes_)
          (lookup-insert x.key x.key x.now m
            ∙ if_pos (bytes_key.dec x.key x.key) refl (some x.now) (lookup x.key m)),
      omega arith,
    )

allow-tracked :
    (c : Cardinality) (tenant key : Bytes) (capacity : ℤ) (since now : ℕ)
    → Soon since now
    → Kept c tenant key since
    → (allow c tenant key capacity now).1 ≡ true
allow-tracked c tenant key capacity since now soon (t, e, le) =
    let here = lookup-live c tenant key t now e (omega (arith, soon.1, le)) in
    (allow_swept c tenant key capacity now).0 ∙ rw here refl

-- New series are frozen, old ones flow: a series that a call admitted is admitted again within the
-- hour that follows, under any cap, whatever calls of any tenants come in between in that hour.
pub admitted_flows :
    (c : Cardinality) (x : Call) (calls : List Call) (capacity : ℤ) (now : ℕ)
    → (allow c x.tenant x.key x.capacity x.now).1 ≡ true
    → All (λ y. Soon x.now y.now) calls
    → Soon x.now now
    → (allow (run (allow c x.tenant x.key x.capacity x.now).0 calls) x.tenant x.key capacity now).1
      ≡ true
admitted_flows c x calls capacity now h a soon =
    let c' = (allow c x.tenant x.key x.capacity x.now).0 in
    allow-tracked (run c' calls) x.tenant x.key capacity x.now now soon
      (run-Kept c' calls x.tenant x.key x.now a (admitted-Kept c x h))
