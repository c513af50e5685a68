-- ===== src/Gauge/Tests.antt =====
-- An interleaving of two requests and a take.
use maping.Base.{refl, [], ◌∷◌}
use maping.Gauge.{
  Gauge, running, outside, start, higher_of, begin_request, after_load, with_requests, end_request,
  load_in_flight, swap_peak, begins, loads, swaps, ends, take_loads, take_swaps, Reaches, here,
  then_step,
}
use maping.Gauge.Peak.{Sound, reachable-Sound}

-- One request is in flight and past its loop, and the peak of the new window is zero.
abbrev missed : Gauge
missed = record {
  in_flight = 1;
  peak = 0;
  requests = running ∷ [];
  taker = outside;
  taken = 1 ∷ [];
  most = 1;
}

-- A request begins and ends; the uploader loads zero; before it swaps, a second request begins and
-- finds the old peak high enough; then the uploader stores its zero.
raced : Reaches start missed
unfolding start begin_request higher_of after_load with_requests end_request load_in_flight
    swap_peak
raced =
    then_step
      (then_step
        (then_step
          (then_step
            (then_step
              (then_step (then_step (then_step (here _) (begins _)) (loads _ [] [] 1 refl))
                (swaps _ [] [] 1 0 refl refl))
              (ends _ [] [] refl))
            (take_loads _ refl))
          (begins _))
        (loads _ [] [] 1 refl))
      (take_swaps _ 0 refl)

reachable-Sound_example : Sound missed
reachable-Sound_example = reachable-Sound raced
