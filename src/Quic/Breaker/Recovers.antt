-- ===== src/Quic/Breaker/Recovers.antt =====
-- An open breaker refuses requests until its timeout has passed, and recovers after it.
use landropic.Prelude.{
  ℕ, ◌+◌, ◌-◌, ◌%◌, ◌^◌, ◌≤◌, ◌<◌, max, ◌≡◌, refl, some, Bool, true, false, List, [], ◌∷◌, All,
  replicate, length, zero, suc, arith, leb, ltb, ap, sym,
}
use mathlib.Core.Path.{subst}
use landropic.Quic.Breaker.{
  open_circuit, half_open, CircuitBreaker, allow_request, reset, record_success, Event, asked,
  succeeded, failed, run,
}
use landropic.Quic.Breaker.Sound.{
  IsSound, counts_half_open, counter_fits, record_success-IsSound, allow_request-IsSound,
}

-- Requests at the given times.
pub asks : List ℕ → List Event
asks [] = []
asks (now ∷ times) = asked now ∷ asks times

-- Failures at the given times.
pub failures : List ℕ → List Event
failures [] = []
failures (now ∷ times) = failed now ∷ failures times

pub request_refused :
    (b : CircuitBreaker) (t now : ℕ)
    → b.state ≡ open_circuit
    → b.last_failure ≡ some t
    → now ≤ t + b.timeout
    → allow_request now b ≡ (false, b)
unfolding allow_request
request_refused b t now e e' h = ground (arith, e, e')

-- An open breaker whose last failure was at `t` refuses every request that comes within the timeout.
pub run-asks-refuses :
    (b : CircuitBreaker) (t : ℕ) (times : List ℕ)
    → b.state ≡ open_circuit
    → b.last_failure ≡ some t
    → All (λ now. now ≤ t + b.timeout) times
    → run (asks times) b ≡ (replicate (length times) false, b)
unfolding run asks
run-asks-refuses b t [] e e' h = refl
run-asks-refuses b t (now ∷ times) e e' h =
    let refused : allow_request now b ≡ (false, b) = request_refused b t now e e' h.0 in
    rw (refused, run-asks-refuses b t times e e' h.1) refl

fits :
    (b : CircuitBreaker)
    → IsSound b
    → b.state ≡ half_open
    → (b.success_count + 1) % 2 ^ 32 ≡ b.success_count + 1
fits b v e =
    counter_fits b.success_count b.success_threshold v.successes_fit (counts_half_open b v e)

last_success :
    (b : CircuitBreaker)
    → IsSound b
    → b.state ≡ half_open
    → b.success_threshold ≤ b.success_count + 1
    → record_success b ≡ reset b
unfolding record_success
last_success b v e h =
    let full : leb b.success_threshold (b.success_count + 1) ≡ true = ground arith in
    rw (e, fits b v e, full, record_success) refl

next_success :
    (b : CircuitBreaker)
    → IsSound b
    → b.state ≡ half_open
    → b.success_count + 1 < b.success_threshold
    → record_success b ≡ record b { success_count = b.success_count + 1 }
unfolding record_success
next_success b v e h =
    let more : leb b.success_threshold (b.success_count + 1) ≡ false = ground arith in
    ground (arith, e, fits b v e, more)

-- A half-open breaker that needs `n` more successes is closed by them.
successes-close :
    (n : ℕ) (b : CircuitBreaker)
    → IsSound b
    → b.state ≡ half_open
    → b.success_count + suc n ≡ max b.success_threshold 1
    → run (replicate (suc n) succeeded) b ≡ ([], reset b)
unfolding run reset
successes-close zero b v e h = ap (λ c. ([], c)) (last_success b v e (omega arith))
successes-close (suc n) b v e h =
    let next = next_success b v e (omega arith) in
    let sound = subst IsSound next (record_success-IsSound b v) in
    let rest =
      successes-close n (record b { success_count = b.success_count + 1 }) sound e (omega arith) in
    subst (λ c. run (replicate (suc n) succeeded) c ≡ ([], reset b)) (sym next) rest

-- An open breaker lets a request through that comes after the timeout, and as many successes as the threshold asks
-- for, at least one, close it with all counters at zero.
pub run-recovers :
    (b : CircuitBreaker) (t now n : ℕ)
    → IsSound b
    → b.state ≡ open_circuit
    → b.last_failure ≡ some t
    → t + b.timeout < now
    → suc n ≡ max b.success_threshold 1
    → run (asked now ∷ replicate (suc n) succeeded) b ≡ (true ∷ [], reset b)
unfolding run allow_request reset
run-recovers b t now n v e e' late h =
    let passed : ltb b.timeout (now - t) ≡ true = ground arith in
    let granted : allow_request now b ≡ (true, record b { state = half_open; success_count = 0 }) =
      ground (arith, e, e', passed) in
    let trial = record b { state = half_open; success_count = 0 } in
    let sound : IsSound trial =
      subst (λ (r : Bool × CircuitBreaker). IsSound r.1) granted (allow_request-IsSound now b v) in
    rw (granted, successes-close n trial sound refl (omega arith)) refl
