-- ===== src/Quic/Breaker/Refines.antt =====
-- The breaker implements its specification.
use landropic.Prelude.{
  ℕ, ◌^◌, ◌<◌, ◌≡◌, refl, Option, none, some, Bool, List, [], ◌∷◌, arith, inl, inr, ap, sym, ◌∙◌,
}
use landropic.Quic.Breaker.{
  closed, open_circuit, half_open, CircuitBreaker, new, allow_request, reset, record_success,
  record_failure, Event, asked, succeeded, failed, run,
}
use landropic.Quic.Breaker.Spec.{Health, healthy, tripped, on_trial, ask, succeed, fail, spec_run}
use landropic.Quic.Breaker.Sound.{
  IsSound, new-IsSound, CircuitState-cases, counts_closed, counts_open, counts_half_open,
  counter_fits, record_success-IsSound, record_failure-IsSound, allow_request-IsSound,
}

last : Option ℕ → ℕ
last none = 0
last (some t) = t

-- What the specification sees of a breaker: the counters that its state does not use are forgotten.
pub view : CircuitBreaker → Health
unfolding last
view b = elim b.state [
  | closed ↦ healthy b.failure_count
  | open_circuit ↦ tripped (last b.last_failure)
  | half_open ↦ on_trial b.success_count
]

pub see : List Bool × CircuitBreaker → List Bool × Health
see (answers, b) = (answers, view b)

record_success-succeed :
    (b : CircuitBreaker)
    → IsSound b
    → view (record_success b) ≡ succeed b.failure_threshold b.success_threshold b.timeout (view b)
unfolding view record_success reset succeed
record_success-succeed b v = elim (CircuitState-cases b.state) [
  | inl e ↦ ground (arith, e)
  | inr (inl e) ↦ ground (arith, e)
  | inr (inr e) ↦ ground (
    arith,
    e,
    counter_fits b.success_count b.success_threshold v.successes_fit (counts_half_open b v e),
  )
]

record_failure-fail :
    (now : ℕ) (b : CircuitBreaker)
    → IsSound b
    → view (record_failure now b)
      ≡ fail b.failure_threshold b.success_threshold b.timeout now (view b)
unfolding view last record_failure fail
record_failure-fail now b v = elim (CircuitState-cases b.state) [
  | inl e ↦ ground (
    arith,
    e,
    counter_fits b.failure_count b.failure_threshold v.failures_fit (counts_closed b v e),
  )
  | inr (inl e) ↦ ground (arith, e)
  | inr (inr e) ↦ ground (arith, e)
]

allow_request-ask :
    (now : ℕ) (b : CircuitBreaker)
    → IsSound b
    → ((allow_request now b).0, view (allow_request now b).1)
      ≡ ask b.failure_threshold b.success_threshold b.timeout now (view b)
unfolding view last allow_request ask
allow_request-ask now b v = elim (CircuitState-cases b.state) [
  | inl e ↦ ground (arith, e)
  | inr (inl e) ↦ let (t, e') = counts_open b v e in ground (arith, e, e')
  | inr (inr e) ↦ ground (arith, e)
]

-- The configuration, which no operation changes.
record Configured (f s timeout : ℕ) (b : CircuitBreaker) : Type 0 where
  failures : b.failure_threshold ≡ f
  successes : b.success_threshold ≡ s
  waits : b.timeout ≡ timeout

record_success-Configured :
    (f s timeout : ℕ) (b : CircuitBreaker)
    → Configured f s timeout b
    → Configured f s timeout (record_success b)
unfolding record_success reset
record_success-Configured f s timeout b c = record {
  failures = ground (arith, c.failures);
  successes = ground (arith, c.successes);
  waits = ground (arith, c.waits);
}

record_failure-Configured :
    (f s timeout now : ℕ) (b : CircuitBreaker)
    → Configured f s timeout b
    → Configured f s timeout (record_failure now b)
unfolding record_failure
record_failure-Configured f s timeout now b c = record {
  failures = ground (arith, c.failures);
  successes = ground (arith, c.successes);
  waits = ground (arith, c.waits);
}

allow_request-Configured :
    (f s timeout now : ℕ) (b : CircuitBreaker)
    → Configured f s timeout b
    → Configured f s timeout (allow_request now b).1
unfolding allow_request
allow_request-Configured f s timeout now b c = record {
  failures = ground (arith, c.failures);
  successes = ground (arith, c.successes);
  waits = ground (arith, c.waits);
}

module _ (f s timeout : ℕ) where
  run-spec_run :
      (events : List Event) (b : CircuitBreaker)
      → IsSound b
      → Configured f s timeout b
      → see (run events b) ≡ spec_run f s timeout events (view b)
  unfolding run see spec_run
  run-spec_run [] b v c = refl
  run-spec_run (asked now ∷ events) b v c =
      let step : ((allow_request now b).0, view (allow_request now b).1)
          ≡ ask f s timeout now (view b) =
        rw (sym c.failures, sym c.successes, sym c.waits) (allow_request-ask now b v) in
      let rest =
        run-spec_run events (allow_request now b).1 (allow_request-IsSound now b v)
          (allow_request-Configured f s timeout now b c) in
      ap (λ (x : List Bool × Health). ((allow_request now b).0 ∷ x.0, x.1)) rest
      ∙ ap
          (λ (x : Bool × Health).
            (x.0 ∷ (spec_run f s timeout events x.1).0, (spec_run f s timeout events x.1).1))
          step
  run-spec_run (succeeded ∷ events) b v c =
      let step : view (record_success b) ≡ succeed f s timeout (view b) =
        rw (sym c.failures, sym c.successes, sym c.waits) (record_success-succeed b v) in
      run-spec_run events (record_success b) (record_success-IsSound b v)
        (record_success-Configured f s timeout b c)
      ∙ ap (spec_run f s timeout events) step
  run-spec_run (failed now ∷ events) b v c =
      let step : view (record_failure now b) ≡ fail f s timeout now (view b) =
        rw (sym c.failures, sym c.successes, sym c.waits) (record_failure-fail now b v) in
      run-spec_run events (record_failure now b) (record_failure-IsSound now b v)
        (record_failure-Configured f s timeout now b c)
      ∙ ap (spec_run f s timeout events) step

  -- From a new breaker with thresholds of 32 bits, every sequence of requests, successes and failures gives the
  -- answers of the specification, and leaves the state that the specification leaves.
  pub run-new-spec_run :
      (events : List Event)
      → f < 2 ^ 32
      → s < 2 ^ 32
      → see (run events (new f s timeout)) ≡ spec_run f s timeout events (healthy 0)
  unfolding new view
  run-new-spec_run events h k =
      run-spec_run events (new f s timeout) (new-IsSound f s timeout h k)
        (record { failures = refl; successes = refl; waits = refl })
