-- ===== src/Quic/Breaker/Sound.antt =====
-- The counter of a breaker's state stays below its threshold, and an open breaker knows its last failure.
use landropic.Prelude.{
  ℕ, ◌+◌, ◌-◌, ◌%◌, ◌^◌, ◌≤◌, ◌<◌, ◌≡◌, refl, some, Bool, List, [], ◌∷◌, arith, ◌⊎◌, leb, ltb, inl,
  inr, by_test,
}
use mathlib.Core.Path.{subst}
use landropic.Quic.Breaker.{
  CircuitState, closed, open_circuit, half_open, CircuitBreaker, new, allow_request, reset,
  record_success, record_failure, Event, asked, succeeded, failed, run,
}

unfoldable pub Counts : CircuitState → CircuitBreaker → Type 0
Counts closed b = b.failure_count ≤ b.failure_threshold - 1
Counts open_circuit b = (t : ℕ) × (b.last_failure ≡ some t)
Counts half_open b = b.success_count ≤ b.success_threshold - 1

-- The thresholds are u32, and the state's own counter is below its threshold.
pub record IsSound (b : CircuitBreaker) : Type 0 where
  pub failures_fit : b.failure_threshold < 2 ^ 32
  pub successes_fit : b.success_threshold < 2 ^ 32
  pub counts : Counts b.state b

pub new-IsSound : (f s timeout : ℕ) → f < 2 ^ 32 → s < 2 ^ 32 → IsSound (new f s timeout)
unfolding new Counts
new-IsSound f s timeout h k = record { failures_fit = h; successes_fit = k; counts = omega arith }

pub CircuitState-cases : (s : CircuitState) → (s ≡ closed) ⊎ ((s ≡ open_circuit) ⊎ (s ≡ half_open))
CircuitState-cases closed = inl refl
CircuitState-cases open_circuit = inr (inl refl)
CircuitState-cases half_open = inr (inr refl)

pub counts_closed :
    (b : CircuitBreaker) → IsSound b → b.state ≡ closed → b.failure_count ≤ b.failure_threshold - 1
unfolding Counts
counts_closed b v e = subst (λ s. Counts s b) e v.counts

pub counts_open :
    (b : CircuitBreaker) → IsSound b → b.state ≡ open_circuit → (t : ℕ) × (b.last_failure ≡ some t)
unfolding Counts
counts_open b v e = subst (λ s. Counts s b) e v.counts

pub counts_half_open :
    (b : CircuitBreaker)
    → IsSound b
    → b.state ≡ half_open
    → b.success_count ≤ b.success_threshold - 1
unfolding Counts
counts_half_open b v e = subst (λ s. Counts s b) e v.counts

-- A counter below a threshold of 32 bits does not wrap around.
pub counter_fits :
    (n threshold : ℕ) → threshold < 2 ^ 32 → n ≤ threshold - 1 → (n + 1) % 2 ^ 32 ≡ n + 1
counter_fits n threshold h k = omega arith

reset-IsSound : (b : CircuitBreaker) → IsSound b → IsSound (reset b)
unfolding reset Counts
reset-IsSound b v = record {
  failures_fit = v.failures_fit;
  successes_fit = v.successes_fit;
  counts = omega arith;
}

pub record_success-IsSound : (b : CircuitBreaker) → IsSound b → IsSound (record_success b)
unfolding record_success Counts
record_success-IsSound b v = elim (CircuitState-cases b.state) [
  | inl e ↦
      rw (e, record_success)
        (record {
          failures_fit = v.failures_fit;
          successes_fit = v.successes_fit;
          counts = rw (e, Counts) (omega arith);
        })
  | inr (inl e) ↦ rw (e, record_success) (reset-IsSound b v)
  | inr (inr e) ↦
      rw
        (
          e,
          counter_fits b.success_count b.success_threshold v.successes_fit (counts_half_open b v e),
          record_success,
        )
        (by_test IsSound (leb b.success_threshold (b.success_count + 1)) (λ full. reset-IsSound b v)
          (λ more. record {
            failures_fit = v.failures_fit;
            successes_fit = v.successes_fit;
            counts = rw (e, Counts) (ground (arith, more));
          }))
]

pub record_failure-IsSound :
    (now : ℕ) (b : CircuitBreaker) → IsSound b → IsSound (record_failure now b)
unfolding record_failure Counts
record_failure-IsSound now b v = elim (CircuitState-cases b.state) [
  | inl e ↦
      rw
        (
          e,
          counter_fits b.failure_count b.failure_threshold v.failures_fit (counts_closed b v e),
          record_failure,
        )
        (by_test IsSound (leb b.failure_threshold (b.failure_count + 1))
          (λ full. record {
            failures_fit = v.failures_fit;
            successes_fit = v.successes_fit;
            counts = (now, refl);
          })
          (λ more. record {
            failures_fit = v.failures_fit;
            successes_fit = v.successes_fit;
            counts = rw (e, Counts) (ground (arith, more));
          }))
  | inr (inl e) ↦
      rw (e, record_failure)
        (record {
          failures_fit = v.failures_fit;
          successes_fit = v.successes_fit;
          counts = rw (e, Counts) (now, refl);
        })
  | inr (inr e) ↦
      rw (e, record_failure)
        (record {
          failures_fit = v.failures_fit;
          successes_fit = v.successes_fit;
          counts = (now, refl);
        })
]

pub allow_request-IsSound :
    (now : ℕ) (b : CircuitBreaker) → IsSound b → IsSound (allow_request now b).1
unfolding allow_request Counts
allow_request-IsSound now b v = elim (CircuitState-cases b.state) [
  | inl e ↦ rw (e, allow_request) v
  | inr (inl e) ↦
      let (t, e') = counts_open b v e in
      rw (e, e', allow_request)
        (by_test (λ (r : Bool × CircuitBreaker). IsSound r.1) (ltb b.timeout (now - t))
          (λ late. record {
            failures_fit = v.failures_fit;
            successes_fit = v.successes_fit;
            counts = omega arith;
          })
          (λ early. v))
  | inr (inr e) ↦ rw (e, allow_request) v
]

-- Whatever happens to a breaker that starts with thresholds of 32 bits, it stays sound: the counter that its state
-- uses is below the threshold, and a breaker that is open knows when it failed last.
pub run-IsSound : (events : List Event) (b : CircuitBreaker) → IsSound b → IsSound (run events b).1
unfolding run
run-IsSound [] b v = v
run-IsSound (asked now ∷ events) b v =
    run-IsSound events (allow_request now b).1 (allow_request-IsSound now b v)
run-IsSound (succeeded ∷ events) b v =
    run-IsSound events (record_success b) (record_success-IsSound b v)
run-IsSound (failed now ∷ events) b v =
    run-IsSound events (record_failure now b) (record_failure-IsSound now b v)
