-- ===== src/Cardinality/Tests.antt =====
-- The guard at concrete inputs.
use maping.Base.{
  ◌*◌, ◌^◌, ℕ, ◌≤◌, ◌≡◌, ◌≢◌, refl, true, false, [], ◌∷◌, length, ite, if◌then◌else◌, arith, List,
}
use maping.Base.Int.{pos}
use maping.Base.Bytes.{Bytes, bytes_key, bytes_discrete}
use maping.Base.Assoc.{insert, lookup, delete}
use maping.Cardinality.{
  Cardinality, new, allow, set_of, frozen, sweep, track, evict_stale, series_ttl,
}
use maping.Cardinality.Allow.{live, ThisHour, admits, allow_lem}
use maping.Cardinality.Within.{Call, run, Soon, run_capped, admitted_flows}

abbrev call : ℕ → ℕ → Call
call k t = record { tenant = 97 ∷ []; key = k ∷ []; capacity = pos 1; now = t }

abbrev calls : List Call
calls = call 2 1000 ∷ call 1 2000 ∷ []

-- The cap is one: the second series is refused, the first flows.
refused : (allow (allow new [] (1 ∷ []) (pos 1) 0).0 [] (2 ∷ []) (pos 1) 9).1 ≡ false
unfolding allow new set_of sweep track evict_stale frozen insert lookup delete bytes_discrete
    series_ttl
refused = refl

first : (allow new (97 ∷ []) (1 ∷ []) (pos 1) 0).1 ≡ true
unfolding allow new set_of sweep evict_stale lookup insert delete bytes_discrete
first = refl

-- Two series an hour and a bit apart: the first is gone when the second comes back, at a cap of one.
abbrev two_seen : Cardinality
two_seen = record {
  tracked = insert [] (((1 ∷ []), 0) ∷ ((2 ∷ []), 3000 * 10 ^ 9) ∷ []) [];
  frozen_at = [];
}

allow_lem_example :
    let now = 3601 * 10 ^ 9 in
    let r = allow two_seen [] (2 ∷ []) (pos 1) now in
    let m = live two_seen [] now in
    ThisHour now (set_of two_seen []) m
    × ((r.1 ≡ admits m (2 ∷ []) (pos 1))
        × ((u : Bytes)
            → set_of r.0 u
              ≡ ite
                  (bytes_key.dec [] u)
                  (if admits m (2 ∷ []) (pos 1) then insert (2 ∷ []) now m else m)
                  (set_of two_seen u))
        × ((u : Bytes) → [] ≢ u → frozen r.0 u ≡ frozen two_seen u)
        × (admits m (2 ∷ []) (pos 1) ≡ false → frozen r.0 [] ≡ true)
        × (r.2 ≡ frozen r.0 []))
allow_lem_example = allow_lem two_seen [] (2 ∷ []) (pos 1) (3601 * 10 ^ 9)

run_capped_example : length (set_of (run new calls) (97 ∷ [])) ≤ 1
run_capped_example = run_capped 1 calls (97 ∷ []) (omega arith) (refl, (refl, tt))

calls-Soon : Soon 0 1000 × Soon 0 2000
unfolding series_ttl
calls-Soon = ((omega arith, omega arith), (omega arith, omega arith))

latest-Soon : Soon 0 3000
unfolding series_ttl
latest-Soon = (omega arith, omega arith)

admitted_flows_example :
    (allow (run (allow new (97 ∷ []) (1 ∷ []) (pos 1) 0).0 calls) (97 ∷ []) (1 ∷ []) (pos 1) 3000).1
    ≡ true
admitted_flows_example =
    admitted_flows new (call 1 0) calls (pos 1) 3000 first (calls-Soon.0, (calls-Soon.1, tt))
      latest-Soon
