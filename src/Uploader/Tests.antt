-- ===== src/Uploader/Tests.antt =====
-- The loop on a flush window of ten seconds, and its theorems at concrete inputs.
use maping.Base.{ℕ, ◌+◌, ◌*◌, ◌≡◌, refl, true, false, some, List, [], ◌∷◌, ◌++◌, arith}
use maping.Base.Int.{pos}
use maping.Ring
use maping.Ring.View.{Holds}
use maping.Ring.Refinement.{new-Holds, push-enqueue}
use maping.Uploader.{
  Loop, Request, Event, flushes, retries, start, run, fire, step, flush_window, drain_all,
  base_backoff, max_backoff, ring_capacity, min_ring_capacity, ring_windows_span, second, rearm,
  account, after_drain, try_drain_oldest, drain_request, send_stamped, stamp, next_backoff,
}
use maping.Uploader.Accounts.{run_balance, summaries, stamps, flushed}
use maping.Uploader.Shutdown.{drain_all_ships, windows}

abbrev ten_seconds : ℕ
ten_seconds = 10 * second

-- Two windows, a refused upload, a window, an accepted upload.
abbrev events : List (Event ℕ)
events = flushes (1 ∷ 2 ∷ []) ∷ flushes [] ∷ retries false ∷ flushes (3 ∷ []) ∷ retries true ∷ []

abbrev later : Loop ℕ
later = run (start ten_seconds) events

later_uploaded : later.uploaded ≡ record { summaries = 1 ∷ 2 ∷ []; dropped_summaries = 0 } ∷ []
unfolding run fire step start flush_window rearm account after_drain try_drain_oldest drain_request
    send_stamped stamp ring_capacity min_ring_capacity ring_windows_span base_backoff next_backoff
    max_backoff Ring.new Ring.push Ring.put Ring.vacate Ring.peek Ring.pop_oldest Ring.len
later_uploaded = refl

run_balance_example :
    (xs : List (Request ℕ)) × Holds later.ring xs
    × (flushed events
        ≡ summaries later.uploaded + summaries xs + stamps later.uploaded + later.dropped_summaries)
run_balance_example = run_balance ten_seconds events (omega arith)

later_len : Ring.len later.ring ≡ 1
unfolding run fire step start flush_window rearm account after_drain try_drain_oldest drain_request
    send_stamped stamp ring_capacity min_ring_capacity ring_windows_span base_backoff next_backoff
    max_backoff Ring.new Ring.push Ring.put Ring.vacate Ring.peek Ring.pop_oldest Ring.len
later_len = refl

-- A loop with one pending request and its timer armed.
abbrev first : Request ℕ
first = record { summaries = 1 ∷ 2 ∷ []; dropped_summaries = 0 }

abbrev waiting : Loop ℕ
waiting = record {
  ring = (Ring.push (Ring.new (pos 8)) first).0;
  dropped_summaries = 0;
  backoff = base_backoff;
  retry = some 0;
  flush = ten_seconds;
  flush_window = ten_seconds;
  uploaded = [];
}

waiting-Holds : Holds waiting.ring (first ∷ [])
waiting-Holds = (push-enqueue (Ring.new (pos 8)) [] first (new-Holds (pos 8))).0

drain_all_ships_example :
    Holds (drain_all waiting (false ∷ true ∷ [])).ring []
    × (windows (drain_all waiting (false ∷ true ∷ [])).uploaded
        ≡ windows waiting.uploaded ++ windows (first ∷ []))
drain_all_ships_example =
    drain_all_ships waiting (first ∷ []) (false ∷ true ∷ []) waiting-Holds (omega arith)
