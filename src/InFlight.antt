-- ===== src/InFlight.antt =====
-- `limitInFlight` of server.go: the gate in front of the handlers. The buffered channel is the
-- number of its elements.
use npvtunnel_creator_server.Base.{
  ℕ, zero, suc, ◌+◌, ◌≤◌, ◌≡◌, ◌≢◌, refl, Text, text, if◌then◌else◌, ltb, str_eq, str_eq_iff, arith,
  ◌↔◌,
}

abbrev pub max_in_flight_requests : ℕ
max_in_flight_requests = 256

-- What the gate does with a request: /healthz goes around it, others take a place or get a 503.
pub data Admission : Type 0 where
  exempt admitted busy : Admission

unfoldable pub enter : Text → ℕ → ℕ × Admission
enter path in_flight =
    if str_eq path (text "/healthz")
    then (in_flight, exempt)
    else if ltb in_flight max_in_flight_requests
    then (suc in_flight, admitted)
    else (in_flight, busy)

-- `<-s.inFlight`, which is deferred when the place is taken.
unfoldable pub leave : Admission → ℕ → ℕ
leave admitted (suc in_flight) = in_flight
leave _ in_flight = in_flight

abbrev one_if_admitted : Admission → ℕ
one_if_admitted admitted = 1
one_if_admitted _ = 0

-- What can come about when requests arrive and the handlers of admitted ones return, in any order:
-- the elements of the channel, the requests admitted so far, and those of them that have returned.
pub data Reached : ℕ → ℕ → ℕ → Type 0 where
  start : Reached 0 0 0
  arrives :
      {n a f : ℕ} (path : Text)
      → Reached n a f
      → Reached (enter path n).0 (one_if_admitted (enter path n).1 + a) f
  returns : {n a f : ℕ} → Reached n a f → suc f ≤ a → Reached (leave admitted n) a (suc f)

enter-size :
    (path : Text) (n : ℕ)
    → n ≤ max_in_flight_requests
    → ((enter path n).0 ≤ max_in_flight_requests)
      × ((enter path n).0 ≡ one_if_admitted (enter path n).1 + n)
unfolding enter
enter-size path n h = ground arith

leave-size : (n : ℕ) → 1 ≤ n → suc (leave admitted n) ≡ n
unfolding leave
leave-size zero h = absurd (omega (arith, h))
leave-size (suc n) h = refl

-- However arrivals and returns interleave, the channel holds one element for each admitted request
-- that has not returned, and at most 256; and a request is turned away exactly if it is not for
-- /healthz and 256 others are being served.
pub Reached-bound :
    (n a f : ℕ) (path : Text)
    → Reached n a f
    → (n ≤ max_in_flight_requests)
      × (n + f ≡ a)
      × (((enter path n).1 ≡ busy) ↔ ((path ≢ text "/healthz") × (n ≡ max_in_flight_requests)))
unfolding enter
Reached-bound n a f path r =
    let (bound, sum) = counted n a f r in
    (bound, sum, ground (arith, str_eq_iff path (text "/healthz")))
  where
    counted : (n a f : ℕ) → Reached n a f → (n ≤ max_in_flight_requests) × (n + f ≡ a)
    counted n a f start = (omega arith, omega arith)
    counted n a f (arrives {n = m} {a = b} path r) =
        let (bound, sum) = counted m b f r in
        let (fits, more) = enter-size path m bound in (fits, omega (arith, more, sum))
    counted n a f (returns {n = m} {a = b} {f = g} r some_left) =
        let (bound, sum) = counted m b g r in
        let one = leave-size m (omega (arith, sum, some_left)) in
        (omega (arith, one, bound), omega (arith, one, sum))
