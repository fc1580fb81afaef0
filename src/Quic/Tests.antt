-- ===== src/Quic/Tests.antt =====
-- Runs of the breaker, of the attempts and of the health monitor.
use landropic.Prelude.{
  ℕ, ◌*◌, ◌≤◌, List, [], ◌∷◌, none, some, true, false, Str, codes, ◌≡◌, refl, arith,
}
use landropic.Prelude.Dict.{Dict, lookup}
use landropic.Quic.Errors.{timeout, io, clone, is_recoverable}
use landropic.Quic.Breaker.{
  CircuitBreaker, open_circuit, new, reset, Event, asked, succeeded, failed, run,
}
use landropic.Quic.Breaker.Spec.{healthy, spec_run}
use landropic.Quic.Breaker.Sound.{Counts}
use landropic.Quic.Breaker.Refines.{see, run-new-spec_run}
use landropic.Quic.Breaker.Recovers.{run-recovers}
use landropic.Quic.Recovery.{Result, error, with_retry, connect_with_recovery}
use landropic.Quic.Recovery.Attempts.{Ends, with_retry-Ends}
use landropic.Quic.Recovery.Refusal.{Start, AllRefused, connect_with_recovery-AllRefused}
use landropic.Quic.Health.{
  ConnectionHealth, Probe, opens, fails, watched, watch_all, ping_times, watched-ping_times,
}

abbrev events : List Event
events = failed 1 ∷ failed 2 ∷ asked 3 ∷ failed 4 ∷ asked 5 ∷ asked 100 ∷ succeeded ∷ []

run-new-spec_run_example : see (run events (new 3 2 30)) ≡ spec_run 3 2 30 events (healthy 0)
run-new-spec_run_example = run-new-spec_run 3 2 30 events (omega arith) (omega arith)

abbrev opened : CircuitBreaker
opened = record {
  state = open_circuit;
  failure_count = 3;
  success_count = 0;
  last_failure = some 7;
  failure_threshold = 3;
  success_threshold = 2;
  timeout = 30;
}

run-recovers_example :
    run (asked 38 ∷ succeeded ∷ succeeded ∷ []) opened ≡ (true ∷ [], reset opened)
unfolding Counts
run-recovers_example =
    run-recovers opened 7 38 1
      (record { failures_fit = omega arith; successes_fit = omega arith; counts = (7, refl) }) refl
      refl (omega arith) (omega arith)

abbrev toy_decimal : ℕ → Str
toy_decimal n = codes "3"

abbrev refusing : ℕ → Result ℕ
refusing attempt = error timeout

abbrev clock : ℕ → ℕ
clock attempt = attempt * 500

with_retry-Ends_example :
    ((with_retry toy_decimal 3 refusing clock (codes "a") []).attempts ≤ 3)
    × Ends refusing 0 3 none
        (codes "All 3 operation attempts failed")
        (with_retry toy_decimal 3 refusing clock (codes "a") [])
with_retry-Ends_example = with_retry-Ends refusing clock (codes "a") toy_decimal 3 []

abbrev two_starts : List (Start ℕ)
two_starts =
    record { max_attempts = 5; operation = refusing; clock = clock; now = 1000 }
    ∷ record { max_attempts = 5; operation = refusing; clock = clock; now = 2000 }
    ∷ []

connect_with_recovery-AllRefused_example :
    AllRefused toy_decimal 0 refusing clock
      (codes "a")
      two_starts
      (connect_with_recovery toy_decimal 3 refusing clock (codes "a") 0 []).breakers
unfolding lookup is_recoverable
connect_with_recovery-AllRefused_example =
    connect_with_recovery-AllRefused toy_decimal 0 refusing clock (codes "a") two_starts 0 [] refl
      (λ j h. (timeout, (refl, refl))) (omega arith, (omega arith, tt))

abbrev watched_one : Dict ConnectionHealth
watched_one =
    (
      codes "c",
      record { connection = codes "peer"; last_ping = none; ping_failures = 1; avg_rtt = none },
    )
    ∷ []

-- The error that is handed out has lost its kind: the caller cannot see that it may be tried again.
clone_forgets :
    (is_recoverable (io (codes "refused")) ≡ true)
    × (is_recoverable (clone (io (codes "refused"))) ≡ false)
unfolding is_recoverable clone
clone_forgets = (refl, refl)

abbrev probes : List (ℕ × Probe)
probes = (1, fails timeout) ∷ (2, fails timeout) ∷ (3, opens 5) ∷ (4, fails timeout) ∷ []

watched-ping_times_example :
    watched (codes "c") (ping_times (codes "c") probes watched_one)
    ≡ watch_all probes (watched (codes "c") watched_one)
watched-ping_times_example = watched-ping_times (codes "c") probes watched_one
