-- ===== src/Uploader.antt =====
-- client/uploader.go: the event loop that flushes windows into the ring and drains the ring to the
-- collector with backoff. The loop owns its state, so it is a function of the state and an event.
-- A request holds the summaries of one window and the stamp dropped_summaries.
-- Outside the loop are the timers, which fire in any order and at any time that they are armed,
-- and the collector, which accepts or refuses each upload; both choose the events.
pub mod Pending
pub mod Accounts
pub mod Backoff
pub mod Shutdown
mod Tests
use maping.Base.{
  ℕ, ◌+◌, ◌*◌, ◌/◌, Bool, true, false, ◌&&◌, Option, none, some, List, [], ◌∷◌, ◌++◌, length, set,
  ltb, ◌==◌, max, if◌then◌else◌,
}
use maping.Base.Word.{add64, sub64}
use maping.Base.Int.{pos}
use maping.Ring
use maping.Ring.{Ring}

-- Durations are nanoseconds.
abbrev pub second : ℕ
second = 1000000000

unfoldable pub base_backoff : ℕ
base_backoff = 1 * second

unfoldable pub max_backoff : ℕ
max_backoff = 30 * second

unfoldable pub first_flush_delay : ℕ
first_flush_delay = 2 * second

unfoldable pub next_backoff : ℕ → ℕ
next_backoff cur = if ltb max_backoff (cur * 2) then max_backoff else cur * 2

unfoldable pub min_ring_capacity : ℕ
min_ring_capacity = 8

unfoldable pub ring_windows_span : ℕ
ring_windows_span = 300

unfoldable pub ring_capacity : ℕ → ℕ
ring_capacity flush_window =
    let secs = max (flush_window / second) 1 in max min_ring_capacity (ring_windows_span / secs)

pub record Request (S : Type 0) : Type 0 where
  pub summaries : List S
  pub dropped_summaries : ℕ

-- `retry` is the delay of the retry timer, `none` when it is stopped or has fired; `flush` is the
-- delay of the flush timer. `uploaded` is what the collector has accepted, oldest first.
pub record Loop (S : Type 0) : Type 0 where
  pub ring : Ring (Request S)
  pub dropped_summaries : ℕ
  pub backoff : ℕ
  pub retry : Option ℕ
  pub flush : ℕ
  pub flush_window : ℕ
  pub uploaded : List (Request S)

pub data DrainResult : Type 0 where
  drain_empty drain_sent drain_failed : DrainResult

pub data Event (S : Type 0) : Type 0 where
  -- The flush timer fires; the window that the shards hold then.
  flushes : List S → Event S
  -- The retry timer fires; whether the collector accepts an upload then.
  retries : Bool → Event S

module _ {S : Type 0} where
  -- The loop before its first event, after the handshake.
  unfoldable pub start : ℕ → Loop S
  start flush_window = record {
    ring = Ring.new (pos (ring_capacity flush_window));
    dropped_summaries = 0;
    backoff = base_backoff;
    retry = none;
    flush = first_flush_delay;
    flush_window = flush_window;
    uploaded = [];
  }

  -- The request that the ring holds is written through its pointer, before the upload.
  unfoldable pub stamp : Loop S → Request S → Request S
  stamp l req = record req { dropped_summaries = l.dropped_summaries }

  unfoldable pub send_stamped : Loop S → Request S → Bool → Loop S × Bool
  send_stamped l req accepted =
      let req' = stamp l req in
      let l' = record l {
        ring = record (l.ring) { buf = set l.ring.buf l.ring.head (some req') };
      } in
      if accepted
      then (
        record l' {
          dropped_summaries = sub64 l.dropped_summaries req'.dropped_summaries;
          uploaded = l.uploaded ++ req' ∷ [];
        },
        true,
      )
      else (l', false)

  unfoldable pub drain_request : Loop S → Option (Request S) → Bool → Loop S × DrainResult
  drain_request l none accepted = (l, drain_empty)
  drain_request l (some req) accepted =
      let (l', sent) = send_stamped l req accepted in
      if sent
      then (record l' { ring = (Ring.pop_oldest l'.ring).0 }, drain_sent)
      else (l', drain_failed)

  unfoldable pub try_drain_oldest : Loop S → Bool → Loop S × DrainResult
  try_drain_oldest l accepted = drain_request l (Ring.peek l.ring) accepted

  unfoldable pub account : Loop S → Option (Request S) → Loop S
  account l none = l
  account l (some evicted) = record l {
    dropped_summaries = add64 l.dropped_summaries (length evicted.summaries);
  }

  -- `flush` on a window that was swapped out of the shards; the result tells whether it pushed.
  unfoldable pub flush_window : Loop S → List S → Loop S × Bool
  flush_window l [] = (l, false)
  flush_window l (s ∷ window) =
      let req : Request S = record { summaries = s ∷ window; dropped_summaries = 0 } in
      let (ring', evicted) = Ring.push l.ring req in
      (account (record l { ring = ring' }) evicted, true)

  -- The case `drainSent`, `drainFailed` or `drainEmpty` of the loop.
  unfoldable pub after_drain : Loop S × DrainResult → Loop S
  after_drain (l, drain_sent) = record l {
    backoff = base_backoff;
    retry = if ltb 0 (Ring.len l.ring) then some 0 else l.retry;
  }
  after_drain (l, drain_failed) = record l {
    retry = some l.backoff;
    backoff = next_backoff l.backoff;
  }
  after_drain (l, drain_empty) = l

  -- The case of the flush timer, after the flush: the first pending request arms the retry timer.
  unfoldable pub rearm : ℕ → Loop S × Bool → Loop S
  rearm delay (l, pushed) = record l {
    retry = if pushed && (Ring.len l.ring == 1) then some 0 else l.retry;
    flush = delay;
  }

  -- One round of the loop: a timer that has fired is stopped until it is reset.
  unfoldable pub step : Loop S → Event S → Loop S
  step l (flushes window) = rearm l.flush_window (flush_window l window)
  step l (retries accepted) = after_drain (try_drain_oldest (record l { retry = none }) accepted)

  -- A timer that is not armed does not fire.
  unfoldable pub fire : Loop S → Event S → Loop S
  fire l (flushes window) = step l (flushes window)
  fire l (retries accepted) = elim l.retry [ none ↦ l | some delay ↦ step l (retries accepted) ]

  unfoldable pub run : Loop S → List (Event S) → Loop S
  run l [] = l
  run l (e ∷ es) = run (fire l e) es

  -- The loop of `Shutdown` over what the collector answers until the context expires.
  unfoldable pub drain_all : Loop S → List Bool → Loop S
  drain_all l [] = l
  drain_all l (accepted ∷ answers) =
      let rest = drain_all (try_drain_oldest l accepted).0 answers in
      if ltb 0 (Ring.len l.ring) then rest else l

  -- `Shutdown` of a running recorder: the last flush, then the drain.
  unfoldable pub shutdown : Loop S → List S → List Bool → Loop S
  shutdown l window answers = drain_all (flush_window l window).0 answers
