-- ===== src/Quic/Recovery.antt =====
-- landro-quic/src/recovery.rs: RecoveryClient. What is tried is a function from the number of the
-- attempt to its result, and `clock` gives the time at which an attempt ended; the delay between
-- attempts only moves the clock. An address is its text; `decimal` prints a number.
pub mod Attempts
pub mod Refusal
use landropic.Prelude.{
  ℕ, zero, suc, ◌+◌, ◌*◌, ◌^◌, Option, none, some, Bool, true, false, List, [], ◌∷◌, ◌++◌, Str,
  codes,
}
use landropic.Prelude.Dict.{Dict, lookup, insert, remove}
use landropic.Quic.Errors.{QuicError, protocol, is_recoverable, clone}
use landropic.Quic.Breaker.{
  CircuitBreaker, CircuitState, allow_request, record_success, record_failure,
}
use landropic.Quic.Breaker

pub data Result (T : Type 0) : Type 0 where
  done : T → Result T
  error : QuicError → Result T

-- The result, the number of attempts that were made, and the breakers.
pub record Retried (T : Type 0) : Type 0 where
  pub result : Result T
  pub attempts : ℕ
  pub breakers : Dict CircuitBreaker

-- if let Some(breaker) = breakers.get_mut(&addr)
unfoldable pub with_breaker :
    Str → (CircuitBreaker → CircuitBreaker) → Dict CircuitBreaker → Dict CircuitBreaker
with_breaker addr f breakers = elim (lookup addr breakers) [
  | none ↦ breakers
  | some b ↦ insert addr (f b) breakers
]

-- entry(addr).or_insert_with(|| CircuitBreaker::new(3, 2, Duration::from_secs(30)))
unfoldable pub breaker_for : Str → Dict CircuitBreaker → CircuitBreaker
breaker_for addr breakers = elim (lookup addr breakers) [
  | none ↦ Breaker.new 3 2 (30 * 10 ^ 9)
  | some b ↦ b
]

-- last_error.unwrap_or_else(...)
unfoldable pub give_up : Option QuicError → Str → QuicError
give_up none message = protocol message
give_up (some e) message = e

module _ {T : Type 0} (operation : ℕ → Result T) (clock : ℕ → ℕ) (addr : Str) where
  -- The loop over the attempts, with the attempts left, the next one and the last error.
  unfoldable pub attempt_loop : ℕ → ℕ → Option QuicError → Str → Dict CircuitBreaker → Retried T
  unfolding with_breaker give_up
  attempt_loop zero attempt last_error message breakers = record {
    result = error (give_up last_error message);
    attempts = attempt;
    breakers = breakers;
  }
  attempt_loop (suc rounds) attempt last_error message breakers = elim (operation attempt) [
    | done value ↦ record {
      result = done value;
      attempts = attempt + 1;
      breakers = with_breaker addr record_success breakers;
    }
    | error e ↦
        let failed_breakers = with_breaker addr (record_failure (clock attempt)) breakers in
        elim (is_recoverable e) [
          | true ↦ attempt_loop rounds (attempt + 1) (some (clone e)) message failed_breakers
          | false ↦ record {
            result = error (clone e);
            attempts = attempt + 1;
            breakers = failed_breakers;
          }
        ]
  ]

module _ {T : Type 0} (decimal : ℕ → Str) (max_attempts : ℕ) (operation : ℕ → Result T)
    (clock : ℕ → ℕ) (addr : Str) where
  unfoldable pub with_retry : Dict CircuitBreaker → Retried T
  unfolding attempt_loop
  with_retry breakers =
      attempt_loop operation clock addr max_attempts 0 none
        (codes "All " ++ decimal max_attempts ++ codes " operation attempts failed") breakers

  unfoldable pub connect_with_recovery : ℕ → Dict CircuitBreaker → Retried T
  unfolding attempt_loop breaker_for
  connect_with_recovery now breakers =
      let (allowed, breaker) = allow_request now (breaker_for addr breakers) in
      let checked = insert addr breaker breakers in
      elim allowed [
        | false ↦ record {
          result = error (
              protocol
                (codes "Circuit breaker open for peer " ++ addr ++ codes ", rejecting request"));
          attempts = 0;
          breakers = checked;
        }
        | true ↦
            attempt_loop operation clock addr max_attempts 0 none
              (codes "All " ++ decimal max_attempts ++ codes " connection attempts failed") checked
      ]

unfoldable pub get_circuit_states : Dict CircuitBreaker → Dict CircuitState
get_circuit_states [] = []
get_circuit_states ((addr, breaker) ∷ breakers) =
    (addr, breaker.state) ∷ get_circuit_states breakers

unfoldable pub reset_circuit_breaker : Str → Dict CircuitBreaker → Dict CircuitBreaker
reset_circuit_breaker addr breakers = remove addr breakers
