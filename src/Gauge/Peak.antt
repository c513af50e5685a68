-- ===== src/Gauge/Peak.antt =====
-- What holds of the gauge in every interleaving.
use maping.Base.{
  ℕ, suc, ◌≤◌, ◌≡◌, refl, ap, ◌∙◌, inl, inr, List, [], ◌∷◌, ◌++◌, All, All-append, length,
  Bool-cases, leb, arith,
}
use maping.Gauge.{
  Request, loading, swapping, running, Taker, outside, loaded, Gauge, start, higher_of,
  begin_request, after_load, with_requests, end_request, load_in_flight, swap_peak, Step, begins,
  loads, swaps, fails, ends, take_loads, take_swaps, Reaches, here, then_step,
}

-- The number that a request carries is at most the bound.
pub Carries : ℕ → Request → Type 0
Carries b (loading n) = n ≤ b
Carries b (swapping n p) = n ≤ b
Carries b running = Unit

pub Holds : ℕ → Taker → Type 0
Holds b outside = Unit
Holds b (loaded v) = v ≤ b

-- The counter is the number of requests, and nothing stands above the most ever in flight.
pub record Sound (g : Gauge) : Type 0 where
  pub counted : g.in_flight ≡ length g.requests
  pub in_flight_below : g.in_flight ≤ g.most
  pub peak_below : g.peak ≤ g.most
  pub requests_below : All (Carries g.most) g.requests
  pub taker_below : Holds g.most g.taker
  pub taken_below : All (λ (p : ℕ). p ≤ g.most) g.taken

Carries-mono : (a b : ℕ) (r : Request) → a ≤ b → Carries a r → Carries b r
unfolding Carries
Carries-mono a b (loading n) h k = omega arith
Carries-mono a b (swapping n p) h k = omega arith
Carries-mono a b running h k = tt

All-Carries-mono : (a b : ℕ) (rs : List Request) → a ≤ b → All (Carries a) rs → All (Carries b) rs
All-Carries-mono a b [] h k = tt
All-Carries-mono a b (r ∷ rs) h (k, ks) = (Carries-mono a b r h k, All-Carries-mono a b rs h ks)

Holds-mono : (a b : ℕ) (t : Taker) → a ≤ b → Holds a t → Holds b t
unfolding Holds
Holds-mono a b outside h k = tt
Holds-mono a b (loaded v) h k = omega arith

taken_mono : (a b : ℕ) (ps : List ℕ) → a ≤ b → All (λ (p : ℕ). p ≤ a) ps → All (λ (p : ℕ). p ≤ b) ps
taken_mono a b [] h k = tt
taken_mono a b (p ∷ ps) h (k, ks) = (omega arith, taken_mono a b ps h ks)

All-parts :
    (b : ℕ) (before after : List Request) (r : Request)
    → All (Carries b) (before ++ r ∷ after)
    → All (Carries b) before × Carries b r × All (Carries b) after
All-parts b [] after r (h, hs) = (tt, h, hs)
All-parts b (x ∷ before) after r (h, hs) =
    let (p, q, k) = All-parts b before after r hs in ((h, p), q, k)

higher_of_lem : (a b : ℕ) → (a ≤ higher_of a b) × (b ≤ higher_of a b)
unfolding higher_of
higher_of_lem a b = ground arith

begin_request-Sound : (g : Gauge) → Sound g → Sound (begin_request g)
unfolding begin_request Carries
begin_request-Sound g s =
    let (low, high) = higher_of_lem g.most (suc g.in_flight) in
    record {
      counted = ap suc s.counted;
      in_flight_below = high;
      peak_below = omega (arith, s.peak_below);
      requests_below = (high, All-Carries-mono g.most _ g.requests low s.requests_below);
      taker_below = Holds-mono g.most _ g.taker low s.taker_below;
      taken_below = taken_mono g.most _ g.taken low s.taken_below;
    }

length-replace :
    (before after : List Request) (r q : Request)
    → length (before ++ r ∷ after) ≡ length (before ++ q ∷ after)
length-replace [] after r q = refl
length-replace (x ∷ before) after r q = ap suc (length-replace before after r q)

length-remove :
    (before after : List Request) (r : Request)
    → length (before ++ r ∷ after) ≡ suc (length (before ++ after))
length-remove [] after r = refl
length-remove (x ∷ before) after r = ap suc (length-remove before after r)

-- One request moves on with a number that is no more than the bound.
replace-Sound :
    (g : Gauge) (before after : List Request) (r q : Request)
    → Sound g
    → g.requests ≡ before ++ r ∷ after
    → (Carries g.most r → Carries g.most q)
    → Sound (with_requests g (before ++ q ∷ after))
unfolding with_requests
replace-Sound g before after r q s e keeps =
    let all : All (Carries g.most) (before ++ r ∷ after) = rw e at s.requests_below in
    let (p, c, k) = All-parts g.most before after r all in
    record {
      counted = s.counted ∙ ap length e ∙ length-replace before after r q;
      in_flight_below = s.in_flight_below;
      peak_below = s.peak_below;
      taker_below = s.taker_below;
      taken_below = s.taken_below;
      requests_below = All-append (Carries g.most) before (q ∷ after) p (keeps c, k);
    }

raised-Sound : (g : Gauge) (n : ℕ) → Sound g → n ≤ g.most → Sound (record g { peak = n })
raised-Sound g n s h = record {
  counted = s.counted;
  in_flight_below = s.in_flight_below;
  peak_below = h;
  requests_below = s.requests_below;
  taker_below = s.taker_below;
  taken_below = s.taken_below;
}

after_load-Carries : (b n p : ℕ) → n ≤ b → Carries b (after_load n p)
unfolding after_load Carries
after_load-Carries b n p h = elim (Bool-cases (leb n p)) [ inl e ↦ rw e tt | inr e ↦ rw e h ]

swapping_bound :
    (g : Gauge) (before after : List Request) (n p : ℕ)
    → Sound g
    → g.requests ≡ before ++ swapping n p ∷ after
    → n ≤ g.most
unfolding Carries
swapping_bound g before after n p s e =
    let all : All (Carries g.most) (before ++ swapping n p ∷ after) = rw e at s.requests_below in
    (All-parts g.most before after (swapping n p) all).1

end_request-Sound :
    (g : Gauge) (before after : List Request)
    → Sound g
    → g.requests ≡ before ++ running ∷ after
    → Sound (end_request g (before ++ after))
unfolding end_request
end_request-Sound g before after s e =
    let all : All (Carries g.most) (before ++ running ∷ after) = rw e at s.requests_below in
    let (p, c, k) = All-parts g.most before after running all in
    let n : g.in_flight ≡ suc (length (before ++ after)) =
      s.counted ∙ ap length e ∙ length-remove before after running in
    record {
      counted = omega (arith, n);
      in_flight_below = omega (arith, s.in_flight_below);
      peak_below = s.peak_below;
      taker_below = s.taker_below;
      taken_below = s.taken_below;
      requests_below = All-append (Carries g.most) before after p k;
    }

step-Sound : {g h : Gauge} → Step g h → Sound g → Sound h
unfolding Carries Holds load_in_flight swap_peak
step-Sound (begins g) s = begin_request-Sound g s
step-Sound (loads g before after n e) s =
    replace-Sound g before after (loading n) (after_load n g.peak) s e
      (after_load-Carries g.most n g.peak)
step-Sound (swaps g before after n p e same) s =
    replace-Sound (record g { peak = n }) before after (swapping n p) running
      (raised-Sound g n s (swapping_bound g before after n p s e)) e (λ c. tt)
step-Sound (fails g before after n p e other) s =
    replace-Sound g before after (swapping n p) (loading n) s e (λ c. c)
step-Sound (ends g before after e) s = end_request-Sound g before after s e
step-Sound (take_loads g e) s = record {
  counted = s.counted;
  in_flight_below = s.in_flight_below;
  peak_below = s.peak_below;
  requests_below = s.requests_below;
  taker_below = s.in_flight_below;
  taken_below = s.taken_below;
}
step-Sound (take_swaps g v e) s =
    let v_below : v ≤ g.most = rw e at s.taker_below in
    record {
      counted = s.counted;
      in_flight_below = s.in_flight_below;
      requests_below = s.requests_below;
      peak_below = v_below;
      taker_below = tt;
      taken_below = (s.peak_below, s.taken_below);
    }

start-Sound : Sound start
unfolding start Holds
start-Sound = record {
  counted = refl;
  in_flight_below = omega arith;
  peak_below = omega arith;
  requests_below = tt;
  taker_below = tt;
  taken_below = tt;
}

-- In every interleaving of requests and of the uploader's takes, the counter is the number of
-- requests in flight, and neither the peak nor any peak that was taken is more than the most
-- requests that were ever in flight at once.
pub reachable-Sound : {g : Gauge} → Reaches start g → Sound g
reachable-Sound (here g) = start-Sound
reachable-Sound (then_step r t) = step-Sound t (reachable-Sound r)
