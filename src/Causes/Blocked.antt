-- ===== src/Causes/Blocked.antt =====
-- server/internal/web/diagnosis_causes.go: congestion, overload and downstream calls as causes.
use maping.Base.{ℕ, suc, ◌&&◌, ◌||◌, not, Bool, true, List, [], ◌∷◌, ◌++◌, ltb, ◌==◌, if◌then◌else◌}
use maping.Base.Bytes.{Bytes, codes}
use maping.Base.Word.{add64}
use maping.Float.{Float}
use maping.Format.{Strconv, long_dash, fmt_pct_d}
use maping.Panels.Rows.{DownstreamView}
use maping.Stats.{NoStatusReasonStat}
use maping.Causes.{Cause, DiagnosisParams, quiet, is_up, signal_if, lines_if}
use maping.Causes.Fleet.{FleetResources}

-- The loop of `causeOverload`: reason 1 is canceled, 2 is deadline exceeded.
unfoldable pub add_aborts : ℕ → List NoStatusReasonStat → ℕ
add_aborts aborts [] = aborts
add_aborts aborts (r ∷ rs) =
    add_aborts (if r.reason == 1 || r.reason == 2 then add64 aborts r.count else aborts) rs

module _ (fl : Float) where
  open fl use {F, lit, lt, le, sub, mul, div, of_ℕ}

  unfoldable pub downstream_high_share : F
  downstream_high_share = lit 1 2

  -- 1 - selfDominantShare
  unfoldable pub self_dominant_ceiling : F
  self_dominant_ceiling = lit 2 5

  unfoldable pub fd_near_limit : F
  fd_near_limit = lit 7 10

  unfoldable pub deadline_cancel_share : F
  deadline_cancel_share = lit 1 20

  unfoldable pub self_dominant : DownstreamView F → Bool
  self_dominant ds = not ds.has_data || le ds.down_fraction self_dominant_ceiling

  unfoldable pub inflight_up : FleetResources F → FleetResources F → Bool
  inflight_up win base = is_up fl (of_ℕ win.in_flight) (of_ℕ base.in_flight)

  unfoldable pub fd_ratio : FleetResources F → F
  fd_ratio win = div (of_ℕ win.open_fds) (of_ℕ win.fd_limit)

  unfoldable pub fd_near : FleetResources F → Bool
  fd_near win = ltb 0 win.fd_limit && le fd_near_limit (fd_ratio win)

  unfoldable pub fd_up : FleetResources F → FleetResources F → Bool
  fd_up win base = is_up fl (of_ℕ win.open_fds) (of_ℕ base.open_fds)

  module _ (go : Strconv F) where
    open go use {format_uint}

    unfoldable pub inflight_line : FleetResources F → FleetResources F → Bytes
    inflight_line win base =
        codes "In-flight concurrency peaked "
        ++ format_uint win.in_flight
        ++ codes " vs "
        ++ format_uint base.in_flight
        ++ codes " baseline."

    unfoldable pub fd_evidence : FleetResources F → Bytes
    fd_evidence win =
        if ltb 0 win.fd_limit
        then codes "Open FDs peaked "
          ++ format_uint win.open_fds
          ++ codes " of "
          ++ format_uint win.fd_limit
          ++ codes " limit."
        else codes "Open FDs peaked " ++ format_uint win.open_fds ++ codes " (up vs baseline)."

    unfoldable pub add_congestion_signals :
        Cause F → FleetResources F → FleetResources F → Bool → Bool → Bool → Cause F
    add_congestion_signals c win base inflight near up =
        let ratio = fd_ratio win in
        let c' =
          if inflight
          then record c {
            signals = suc c.signals;
            mag = div (of_ℕ win.in_flight) (of_ℕ base.in_flight);
            evidence = c.evidence ++ inflight_line win base ∷ [];
          }
          else c in
        if near || up
        then record c' {
          signals = suc c'.signals;
          evidence = c'.evidence ++ fd_evidence win ∷ [];
          mag = if ltb 0 win.fd_limit && lt c'.mag ratio then ratio else c'.mag;
        }
        else c'

    unfoldable pub cause_congestion :
        FleetResources F → FleetResources F → DownstreamView F → Cause F
    cause_congestion win base ds =
        let c = quiet fl (codes "Connection / pool congestion") 4 in
        if not (self_dominant ds)
          || is_up fl win.cores base.cores
          || is_up fl win.gc_cpu base.gc_cpu
        then c
        else if not (inflight_up win base) && not (fd_near win) && not (fd_up win base)
        then c
        else add_congestion_signals
            (record c {
              fired = true;
              summary =
                  codes "Requests are waiting on internal contention (connections, worker pool, or"
                  ++ codes " similar), not because the CPU or memory is busy: blocked, not busy.";
              signals = 2;
              evidence =
                  (codes "Self-time dominates (downstream "
                    ++ fmt_pct_d fl go ds.down_fraction
                    ++ codes ") while CPU and GC held flat vs baseline "
                    ++ long_dash
                    ++ codes " blocked, not busy.")
                  ∷ [];
              falsifier =
                  codes "Not congestion if cores-used or GC CPU climbs with the latency "
                  ++ long_dash
                  ++ codes " that points back to compute or memory.";
            })
            win base (inflight_up win base) (fd_near win) (fd_up win base)

    unfoldable pub cause_overload :
        DiagnosisParams F → FleetResources F → FleetResources F → Cause F
    cause_overload p win base =
        let c = quiet fl (codes "Overload / timeouts") 2 in
        let aborts = add_aborts 0 p.no_status in
        let share = div (of_ℕ aborts) (of_ℕ p.detail.count) in
        if p.detail.count == 0 then c else if lt share deadline_cancel_share then c else record c {
          fired = true;
          summary =
              codes "A significant share of requests are timing out or being canceled, typically"
              ++ codes " from a load spike or an aggressive timeout setting.";
          signals = signal_if (inflight_up win base) 1;
          mag = share;
          evidence = lines_if (inflight_up win base) (inflight_line win base ∷ []) (
              (codes "Deadline/cancel aborts "
                ++ format_uint aborts
                ++ codes " of "
                ++ format_uint p.detail.count
                ++ codes " requests ("
                ++ fmt_pct_d fl go share
                ++ codes ").")
              ∷ []);
          falsifier =
              codes "Not overload if the aborts persist at steady, low traffic "
              ++ long_dash
              ++ codes " that is a downstream or timeout-config fault, not load.";
        }

    unfoldable pub cause_downstream : DownstreamView F → Cause F
    cause_downstream ds =
        let c = quiet fl (codes "Downstream / IO") 1 in
        if not ds.has_data || lt ds.down_fraction downstream_high_share then c else record c {
          fired = true;
          summary =
              codes "Most of the request time is spent waiting on a downstream dependency (a"
              ++ codes " database, cache, or external API), not on this endpoint's own work.";
          signals = 1;
          mag = mul ds.down_fraction (lit 6 1);
          evidence =
              (codes "Downstream calls are "
                ++ fmt_pct_d fl go ds.down_fraction
                ++ codes " of request time (self is only "
                ++ fmt_pct_d fl go (sub (lit 1 1) ds.down_fraction)
                ++ codes ").")
              ∷ [];
          falsifier =
              codes "Not downstream if self-time rises while downstream share falls "
              ++ long_dash
              ++ codes " the endpoint's own work is the bottleneck.";
        }
