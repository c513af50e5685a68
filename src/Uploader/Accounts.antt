-- ===== src/Uploader/Accounts.antt =====
-- No summary is lost without a trace, and pending requests always have a retry scheduled.
use maping.Base.{
  ℕ, suc, ◌+◌, ◌<◌, ◌≡◌, refl, none, some, List, [], ◌∷◌, ◌++◌, length, arith, ◌==◌, Bool-cases,
  Option-cases, inl, inr, true, false, Bool, is_some, length-append,
}
use mathlib.Core.Path.{subst}
use maping.Base.Word.{add64_exact, sub64_self, u64_mod}
use maping.Ring
use maping.Ring.View.{Holds}
use maping.Ring.Refinement.{push-enqueue, new-Holds}
use maping.Uploader.{
  Request, Loop, start, stamp, try_drain_oldest, account, flush_window, rearm, after_drain, step,
  fire, run, Event, flushes, retries,
}
use maping.Uploader.Pending.{drain_none, drain_accepted, drain_refused, written-Holds, popped-Holds}

module _ {S : Type 0} where
  -- The summaries in a list of requests, and the stamps on them.
  abbrev pub summaries : List (Request S) → ℕ
  summaries [] = 0
  summaries (r ∷ rs) = length r.summaries + summaries rs

  abbrev pub stamps : List (Request S) → ℕ
  stamps [] = 0
  stamps (r ∷ rs) = r.dropped_summaries + stamps rs

  -- The summaries that a list of events flushes.
  abbrev pub weight : Event S → ℕ
  weight (flushes window) = length window
  weight (retries accepted) = 0

  abbrev pub flushed : List (Event S) → ℕ
  flushed [] = 0
  flushed (e ∷ es) = weight e + flushed es

  summaries-append : (xs ys : List (Request S)) → summaries (xs ++ ys) ≡ summaries xs + summaries ys
  summaries-append [] ys = omega arith
  summaries-append (x ∷ xs) ys = omega (arith, summaries-append xs ys)

  stamps-append : (xs ys : List (Request S)) → stamps (xs ++ ys) ≡ stamps xs + stamps ys
  stamps-append [] ys = omega arith
  stamps-append (x ∷ xs) ys = omega (arith, stamps-append xs ys)

  -- The loop after n summaries were flushed.
  pub record Inv (l : Loop S) (n : ℕ) : Type 0 where
    pub pending : List (Request S)
    pub holds : Holds l.ring pending
    pub balance :
        n ≡ summaries l.uploaded + summaries pending + stamps l.uploaded + l.dropped_summaries
    pub armed : 0 < length pending → is_some l.retry ≡ true

  start-Inv : (w : ℕ) → Inv (start w) 0
  unfolding start
  start-Inv w = record {
    pending = [];
    holds = new-Holds _;
    balance = omega arith;
    armed = λ h. absurd (omega arith);
  }

  Balanced : Loop S → List (Request S) → ℕ → Type 0
  Balanced l xs n =
      n ≡ summaries l.uploaded + summaries xs + stamps l.uploaded + l.dropped_summaries

  -- The three outcomes of a drain attempt; the retry timer has just fired.
  sent-Inv :
      (l : Loop S) (x : Request S) (xs : List (Request S)) (n : ℕ)
      → n < u64_mod
      → Holds l.ring (x ∷ xs)
      → Balanced l (x ∷ xs) n
      → Inv (after_drain (try_drain_oldest l true)) n
  unfolding after_drain stamp Balanced Ring.len
  sent-Inv l x xs n small h e =
      let popped = popped-Holds l x xs h in
      rw (drain_accepted l x xs h) (record {
        pending = xs;
        holds = popped;
        balance = omega (
          arith,
          e,
          sub64_self l.dropped_summaries (omega (arith, e)),
          summaries-append l.uploaded (stamp l x ∷ []),
          stamps-append l.uploaded (stamp l x ∷ []),
        );
        armed = λ more. ground (arith, popped.counted);
      })

  failed-Inv :
      (l : Loop S) (x : Request S) (xs : List (Request S)) (n : ℕ)
      → Holds l.ring (x ∷ xs)
      → Balanced l (x ∷ xs) n
      → Inv (after_drain (try_drain_oldest l false)) n
  unfolding after_drain stamp Balanced
  failed-Inv l x xs n h e = rw (drain_refused l x xs h) (record {
    pending = stamp l x ∷ xs;
    holds = written-Holds l x xs h;
    balance = e;
    armed = λ more. refl;
  })

  empty-Inv :
      (l : Loop S) (accepted : Bool) (n : ℕ)
      → Holds l.ring []
      → Balanced l [] n
      → Inv (after_drain (try_drain_oldest l accepted)) n
  unfolding after_drain Balanced
  empty-Inv l accepted n h e =
      rw (drain_none l accepted h)
        (record { pending = []; holds = h; balance = e; armed = λ more. absurd (omega arith) })

  drain-Inv :
      (l : Loop S) (xs : List (Request S)) (n : ℕ) (accepted : Bool)
      → n < u64_mod
      → Holds l.ring xs
      → Balanced l xs n
      → Inv (after_drain (try_drain_oldest l accepted)) n
  drain-Inv l [] n accepted small h e = empty-Inv l accepted n h e
  drain-Inv l (x ∷ xs) n true small h e = sent-Inv l x xs n small h e
  drain-Inv l (x ∷ xs) n false small h e = failed-Inv l x xs n h e

  retries-Inv :
      (l : Loop S) (n : ℕ) (accepted : Bool)
      → n < u64_mod
      → Inv l n
      → Inv (step l (retries accepted)) n
  unfolding step Balanced
  retries-Inv l n accepted small v =
      drain-Inv (record l { retry = none }) v.pending n accepted small v.holds v.balance

  -- After the push, by what the ring handed back.
  kept-Inv :
      (l : Loop S) (req : Request S) (n : ℕ) (xs : List (Request S))
      → Holds (Ring.push l.ring req).0 (xs ++ req ∷ [])
      → (Ring.push l.ring req).1 ≡ none
      → Balanced l xs n
      → (0 < length xs → is_some l.retry ≡ true)
      → Inv
          (rearm l.flush_window
            (account (record l { ring = (Ring.push l.ring req).0 }) (Ring.push l.ring req).1, true))
          (length req.summaries + n)
  unfolding rearm account Balanced Ring.len
  kept-Inv l req n xs h out e armed =
      rw (out, account)
        (record {
          pending = xs ++ req ∷ [];
          holds = h;
          balance = omega (arith, e, summaries-append xs (req ∷ []));
          armed = λ more. ground (arith, armed, h.counted, length-append xs (req ∷ []));
        })

  evicted-Inv :
      (l : Loop S) (req x : Request S) (n : ℕ) (xs : List (Request S))
      → length req.summaries + n < u64_mod
      → Holds (Ring.push l.ring req).0 (xs ++ req ∷ [])
      → (Ring.push l.ring req).1 ≡ some x
      → Balanced l (x ∷ xs) n
      → is_some l.retry ≡ true
      → Inv
          (rearm l.flush_window
            (account (record l { ring = (Ring.push l.ring req).0 }) (Ring.push l.ring req).1, true))
          (length req.summaries + n)
  unfolding rearm account Balanced Ring.len
  evicted-Inv l req x n xs small h out e armed =
      rw (out, account)
        (record {
          pending = xs ++ req ∷ [];
          holds = h;
          balance = omega (
            arith,
            e,
            summaries-append xs (req ∷ []),
            add64_exact l.dropped_summaries (length x.summaries) (omega (arith, e)),
          );
          armed = λ more. ground (arith, armed);
        })

  pushed-Inv :
      (l : Loop S) (req : Request S) (n : ℕ) (xs : List (Request S))
      → length req.summaries + n < u64_mod
      → Holds l.ring xs
      → Balanced l xs n
      → (0 < length xs → is_some l.retry ≡ true)
      → Inv
          (rearm l.flush_window
            (account (record l { ring = (Ring.push l.ring req).0 }) (Ring.push l.ring req).1, true))
          (length req.summaries + n)
  pushed-Inv l req n [] small h e armed =
      let (h', out) = push-enqueue l.ring [] req h in kept-Inv l req n [] h' out e armed
  pushed-Inv l req n (x ∷ xs) small h e armed =
      let (h', out) = push-enqueue l.ring (x ∷ xs) req h in
      elim (Bool-cases (suc (length xs) == length l.ring.buf)) [
        | inl full ↦
            evicted-Inv l req x n xs small (rw full at h') (rw full at out) e (armed (omega arith))
        | inr free ↦ kept-Inv l req n (x ∷ xs) (rw free at h') (rw free at out) e armed
      ]

  flushes-Inv :
      (l : Loop S) (window : List S) (n : ℕ)
      → length window + n < u64_mod
      → Inv l n
      → Inv (step l (flushes window)) (length window + n)
  unfolding step flush_window rearm
  flushes-Inv l [] n small v = record {
    pending = v.pending;
    holds = v.holds;
    balance = omega (arith, v.balance);
    armed = v.armed;
  }
  flushes-Inv l (s ∷ window) n small v =
      unfold Balanced in
      pushed-Inv l (record { summaries = s ∷ window; dropped_summaries = 0 }) n v.pending small
        v.holds v.balance v.armed

  fire-Inv :
      (l : Loop S) (e : Event S) (n : ℕ)
      → weight e + n < u64_mod
      → Inv l n
      → Inv (fire l e) (weight e + n)
  unfolding fire
  fire-Inv l (flushes window) n small v = flushes-Inv l window n small v
  fire-Inv l (retries accepted) n small v =
      let same : n ≡ 0 + n = omega arith in
      subst (Inv (fire l (retries accepted))) same (elim (Option-cases l.retry) [
        | inl idle ↦ rw (idle, fire) v
        | inr (delay, e) ↦ rw (e, fire) (retries-Inv l n accepted (omega arith) v)
      ])

  pub run-Inv :
      (l : Loop S) (es : List (Event S)) (n : ℕ)
      → flushed es + n < u64_mod
      → Inv l n
      → Inv (run l es) (flushed es + n)
  unfolding run
  run-Inv l [] n small v = subst (Inv l) (omega arith) v
  run-Inv l (e ∷ es) n small v =
      subst (Inv (run (fire l e) es)) (omega arith)
        (run-Inv (fire l e) es (weight e + n) (omega arith) (fire-Inv l e n (omega arith) v))

  -- From the start of the loop, after any order of flushes, retries, accepted and refused uploads
  -- that flush fewer than 2^64 summaries: the ring holds a list of pending requests, and the
  -- summaries flushed are those uploaded, those pending, those that uploaded requests reported as
  -- dropped, and those dropped since, which the next upload will report. Nothing is lost unreported.
  pub run_balance :
      (window : ℕ) (es : List (Event S))
      → flushed es < u64_mod
      → (xs : List (Request S)) × Holds (run (start window) es).ring xs
        × (flushed es
            ≡ summaries (run (start window) es).uploaded
              + summaries xs
              + stamps (run (start window) es).uploaded
              + (run (start window) es).dropped_summaries)
  run_balance window es small =
      let v = run-Inv (start window) es 0 (omega arith) (start-Inv window) in
      (v.pending, v.holds, omega (arith, v.balance))

  -- After the same histories the loop is not stuck: while the ring holds a request, the retry
  -- timer is armed.
  pub run_armed :
      (window : ℕ) (es : List (Event S))
      → flushed es < u64_mod
      → 0 < Ring.len (run (start window) es).ring
      → is_some (run (start window) es).retry ≡ true
  unfolding Ring.len
  run_armed window es small more =
      let v = run-Inv (start window) es 0 (omega arith) (start-Inv window) in
      v.armed (omega (arith, v.holds.counted))
