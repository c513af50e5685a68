-- ===== src/Cardinality/Allow.antt =====
-- One call of the guard, and what it leaves for every tenant.
use maping.Base.{
  Selects, selected, keeps, leaves, ◌+◌, ◌*◌, ◌^◌, ◌<◌, ◌≤◌, leb, ℕ, ◌≡◌, ◌≢◌, refl, ◌∙◌, sym, Bool,
  true, false, ◌||◌, not, [], ◌∷◌, length, if◌then◌else◌, is_some, arith, Bool-cases, inl, inr, ite,
}
use maping.Base.Int.{ℤ, pos, ltb_ℤ}
use maping.Base.Bytes.{Bytes, bytes_key}
use maping.Base.Assoc.{Map, lookup, insert, delete, lookup-insert, lookup-delete}
use maping.Cardinality.{
  Cardinality, Seen, series_ttl, evict_stale, set_of, frozen, sweep, track, allow,
}

-- The series of a tenant that were seen within the hour.
abbrev pub live : Cardinality → Bytes → ℕ → Seen
live c tenant now = evict_stale (set_of c tenant) now

set_of-sweep :
    (c : Cardinality) (tenant u : Bytes) (m : Seen)
    → set_of (sweep c tenant m) u ≡ ite (bytes_key.dec tenant u) m (set_of c u)
unfolding set_of sweep
set_of-sweep c tenant u [] =
    ground
      (arith, lookup-insert tenant u [] (delete tenant c.tracked), lookup-delete tenant u c.tracked)
set_of-sweep c tenant u (x ∷ m) = ground (arith, lookup-insert tenant u (x ∷ m) c.tracked)

set_of-track :
    (c : Cardinality) (tenant u key : Bytes) (now : ℕ)
    → set_of (track c tenant key now) u
      ≡ ite (bytes_key.dec tenant u) (insert key now (set_of c tenant)) (set_of c u)
unfolding set_of track
set_of-track c tenant u key now =
    ground (arith, lookup-insert tenant u (insert key now (set_of c tenant)) c.tracked)

set_of-sweep_self :
    (c : Cardinality) (tenant : Bytes) (m : Seen) → set_of (sweep c tenant m) tenant ≡ m
set_of-sweep_self c tenant m = ground (arith, set_of-sweep c tenant tenant m)

frozen-sweep :
    (c : Cardinality) (tenant u : Bytes) (m : Seen)
    → tenant ≢ u
    → frozen (sweep c tenant m) u ≡ frozen c u
unfolding frozen sweep
frozen-sweep c tenant u m other = ground (arith, lookup-delete tenant u c.frozen_at)

frozen-freeze :
    (c : Cardinality) (tenant u : Bytes)
    → frozen (record c { frozen_at = insert tenant true c.frozen_at }) u
      ≡ ite (bytes_key.dec tenant u) true (frozen c u)
unfolding frozen
frozen-freeze c tenant u = ground (arith, lookup-insert tenant u true c.frozen_at)

track-keeps :
    (c : Cardinality) (tenant key : Bytes) (now : ℕ) (u : Bytes)
    → frozen (track c tenant key now) u ≡ frozen c u
unfolding frozen track
track-keeps c tenant key now u = refl

-- A request to track a series passes if the series is in the hour's set, or the cap is off, or the
-- set is below the cap.
abbrev pub admits : Seen → Bytes → ℤ → Bool
admits m key capacity =
    is_some (lookup key m) || (not (ltb_ℤ (pos 0) capacity) || ltb_ℤ (pos (length m)) capacity)

swept : Cardinality → Bytes → ℕ → Cardinality
swept c tenant now = sweep c tenant (live c tenant now)

allow-admitted :
    (c : Cardinality) (tenant key : Bytes) (capacity : ℤ) (now : ℕ)
    → admits (live c tenant now) key capacity ≡ true
    → allow c tenant key capacity now
      ≡ (track (swept c tenant now) tenant key now, true, frozen (swept c tenant now) tenant)
unfolding allow swept
allow-admitted c tenant key capacity now h =
    let self = set_of-sweep_self c tenant (live c tenant now) in ground arith

allow-refused :
    (c : Cardinality) (tenant key : Bytes) (capacity : ℤ) (now : ℕ)
    → admits (live c tenant now) key capacity ≡ false
    → allow c tenant key capacity now ≡ (
      record (swept c tenant now) { frozen_at = insert tenant true (swept c tenant now).frozen_at },
      false,
      true,
    )
unfolding allow swept
allow-refused c tenant key capacity now h =
    let self = set_of-sweep_self c tenant (live c tenant now) in ground arith

set_of-admitted :
    (c : Cardinality) (tenant key : Bytes) (now : ℕ) (u : Bytes)
    → set_of (track (swept c tenant now) tenant key now) u
      ≡ ite (bytes_key.dec tenant u) (insert key now (live c tenant now)) (set_of c u)
unfolding swept
set_of-admitted c tenant key now u =
    let self = set_of-sweep_self c tenant (live c tenant now) in
    let other = set_of-sweep c tenant u (live c tenant now) in
    ground (arith, set_of-track (swept c tenant now) tenant u key now, self, other)

set_of-refused :
    (c : Cardinality) (tenant : Bytes) (now : ℕ) (f : Map Bytes Bool) (u : Bytes)
    → set_of (record (swept c tenant now) { frozen_at = f }) u
      ≡ ite (bytes_key.dec tenant u) (live c tenant now) (set_of c u)
unfolding swept set_of
set_of-refused c tenant now f u = set_of-sweep c tenant u (live c tenant now)

frozen-swept :
    (c : Cardinality) (tenant : Bytes) (now : ℕ) (u : Bytes)
    → tenant ≢ u
    → frozen (swept c tenant now) u ≡ frozen c u
unfolding swept
frozen-swept c tenant now u other = frozen-sweep c tenant u (live c tenant now) other

-- One call, in terms of the set that the sweep leaves.
pub allow_swept :
    (c : Cardinality) (tenant key : Bytes) (capacity : ℤ) (now : ℕ)
    → let r = allow c tenant key capacity now in
      let m = live c tenant now in
      (r.1 ≡ admits m key capacity)
      × ((u : Bytes)
          → set_of r.0 u
            ≡ ite
                (bytes_key.dec tenant u)
                (if admits m key capacity then insert key now m else m)
                (set_of c u))
      × ((u : Bytes) → tenant ≢ u → frozen r.0 u ≡ frozen c u)
      × (admits m key capacity ≡ false → frozen r.0 tenant ≡ true)
      × (r.2 ≡ frozen r.0 tenant)
allow_swept c tenant key capacity now =
    let c' = swept c tenant now in
    let m = live c tenant now in
    elim (Bool-cases (admits m key capacity)) [
      | inl e ↦
          rw (allow-admitted c tenant key capacity now e, e)
            (
              refl,
              set_of-admitted c tenant key now,
              λ u other. track-keeps c' tenant key now u ∙ frozen-swept c tenant now u other,
              λ no_. cc no_,
              sym (track-keeps c' tenant key now tenant),
            )
      | inr e ↦
          let mark = λ (u : Bytes). frozen-freeze c' tenant u in
          rw (allow-refused c tenant key capacity now e, e)
            (
              refl,
              set_of-refused c tenant now (insert tenant true c'.frozen_at),
              λ u other. mark u ∙ ground (arith, frozen-swept c tenant now u other),
              λ no_. ground (arith, mark tenant),
              ground (arith, mark tenant),
            )
    ]

-- The entries of a set whose time lies less than an hour before now, in order.
pub ThisHour : ℕ → Seen → Seen → Type 0
ThisHour now =
    Selects (λ (e : Bytes × ℕ). now < e.1 + 3600 * 10 ^ 9)
      (λ (e : Bytes × ℕ). e.1 + 3600 * 10 ^ 9 ≤ now)

evict_stale-ThisHour : (m : Seen) (now : ℕ) → ThisHour now m (evict_stale m now)
unfolding evict_stale series_ttl ThisHour
evict_stale-ThisHour [] now = selected
evict_stale-ThisHour ((k, t) ∷ m) now = elim (Bool-cases (leb (t + 3600 * 1000000000) now)) [
  | inl e ↦ rw e (leaves (ground arith) (evict_stale-ThisHour m now))
  | inr e ↦ rw e (keeps (ground arith) (evict_stale-ThisHour m now))
]

-- One call, for every guard, tenant, series, cap and time. With the series that the tenant showed
-- less than an hour before: the call admits the series exactly if it is among them, or the cap is
-- off, or they are fewer than the cap. It leaves the tenant with them, and with the new one when it
-- is admitted, and every other tenant with what it had, series and frozen mark. A refusal marks the
-- tenant as frozen, and the second answer is the tenant's mark after the call.
pub allow_lem :
    (c : Cardinality) (tenant key : Bytes) (capacity : ℤ) (now : ℕ)
    → let r = allow c tenant key capacity now in
      let m = live c tenant now in
      ThisHour now (set_of c tenant) m
      × ((r.1 ≡ admits m key capacity)
          × ((u : Bytes)
              → set_of r.0 u
                ≡ ite
                    (bytes_key.dec tenant u)
                    (if admits m key capacity then insert key now m else m)
                    (set_of c u))
          × ((u : Bytes) → tenant ≢ u → frozen r.0 u ≡ frozen c u)
          × (admits m key capacity ≡ false → frozen r.0 tenant ≡ true)
          × (r.2 ≡ frozen r.0 tenant))
allow_lem c tenant key capacity now =
    (evict_stale-ThisHour (set_of c tenant) now, allow_swept c tenant key capacity now)
