-- ===== src/Gauge.antt =====
-- client/maping.go: the gauge of requests in flight, BeginRequest and takeInFlightPeak. Its two
-- counters are atomics that many goroutines share, so each step below is one atomic operation and
-- an interleaving is a sequence of steps. The counters stay far below 2^63 and are numbers here.
pub mod Peak
mod Tests
use maping.Base.{ℕ, suc, ◌-◌, ◌≡◌, ◌≢◌, List, [], ◌∷◌, ◌++◌, ltb, leb, if◌then◌else◌}

-- Where a request stands: it has added itself as the n-th in flight and is about to load the peak,
-- it has loaded the peak p and is about to compare and swap, or it is past the loop.
pub data Request : Type 0 where
  loading : ℕ → Request
  swapping : ℕ → ℕ → Request
  running : Request

-- Where the uploader stands in takeInFlightPeak: outside, or behind the load of `in_flight`.
pub data Taker : Type 0 where
  outside : Taker
  loaded : ℕ → Taker

pub record Gauge : Type 0 where
  pub in_flight : ℕ
  pub peak : ℕ
  pub requests : List Request
  pub taker : Taker
  -- The peaks taken, the latest first, and the most that were ever in flight.
  pub taken : List ℕ
  pub most : ℕ

unfoldable pub start : Gauge
start = record { in_flight = 0; peak = 0; requests = []; taker = outside; taken = []; most = 0 }

unfoldable pub higher_of : ℕ → ℕ → ℕ
higher_of a b = if ltb a b then b else a

-- r.inFlight.Add(1)
unfoldable pub begin_request : Gauge → Gauge
begin_request g = record g {
  in_flight = suc g.in_flight;
  requests = loading (suc g.in_flight) ∷ g.requests;
  most = higher_of g.most (suc g.in_flight);
}

-- What a request does next that has loaded the peak.
unfoldable pub after_load : ℕ → ℕ → Request
after_load n p = if leb n p then running else swapping n p

unfoldable pub with_requests : Gauge → List Request → Gauge
with_requests g rs = record g { requests = rs }

-- r.inFlight.Add(-1)
unfoldable pub end_request : Gauge → List Request → Gauge
end_request g rs = record g { in_flight = g.in_flight - 1; requests = rs }

unfoldable pub load_in_flight : Gauge → Gauge
load_in_flight g = record g { taker = loaded g.in_flight }

unfoldable pub swap_peak : Gauge → ℕ → Gauge
swap_peak g v = record g { peak = v; taker = outside; taken = g.peak ∷ g.taken }

pub data Step : Gauge → Gauge → Type 0 where
  begins : (g : Gauge) → Step g (begin_request g)
  loads :
      (g : Gauge) (before after : List Request) (n : ℕ)
      → g.requests ≡ before ++ loading n ∷ after
      → Step g (with_requests g (before ++ after_load n g.peak ∷ after))
  swaps :
      (g : Gauge) (before after : List Request) (n p : ℕ)
      → g.requests ≡ before ++ swapping n p ∷ after
      → g.peak ≡ p
      → Step g (with_requests (record g { peak = n }) (before ++ running ∷ after))
  fails :
      (g : Gauge) (before after : List Request) (n p : ℕ)
      → g.requests ≡ before ++ swapping n p ∷ after
      → g.peak ≢ p
      → Step g (with_requests g (before ++ loading n ∷ after))
  ends :
      (g : Gauge) (before after : List Request)
      → g.requests ≡ before ++ running ∷ after
      → Step g (end_request g (before ++ after))
  take_loads : (g : Gauge) → g.taker ≡ outside → Step g (load_in_flight g)
  take_swaps : (g : Gauge) (v : ℕ) → g.taker ≡ loaded v → Step g (swap_peak g v)

pub data Reaches : Gauge → Gauge → Type 0 where
  here : (g : Gauge) → Reaches g g
  then_step : {g h k : Gauge} → Reaches g h → Step h k → Reaches g k
