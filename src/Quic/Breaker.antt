-- ===== src/Quic/Breaker.antt =====
-- landro-quic/src/recovery.rs: CircuitState and CircuitBreaker. Instants and durations are numbers of
-- nanoseconds; the counters are u32 and wrap around.
pub mod Spec
pub mod Sound
pub mod Refines
pub mod Recovers
use landropic.Prelude.{
  ℕ, ◌+◌, ◌-◌, ◌%◌, ◌^◌, Option, none, some, Bool, true, false, List, [], ◌∷◌, if◌then◌else◌, ltb,
  leb,
}

pub data CircuitState : Type 0 where
  closed : CircuitState
  open_circuit : CircuitState
  half_open : CircuitState

pub record CircuitBreaker : Type 0 where
  pub state : CircuitState
  pub failure_count : ℕ
  pub success_count : ℕ
  pub last_failure : Option ℕ
  pub failure_threshold : ℕ
  pub success_threshold : ℕ
  pub timeout : ℕ

unfoldable pub new : ℕ → ℕ → ℕ → CircuitBreaker
new failure_threshold success_threshold timeout = record {
  state = closed;
  failure_count = 0;
  success_count = 0;
  last_failure = none;
  failure_threshold = failure_threshold;
  success_threshold = success_threshold;
  timeout = timeout;
}

-- The answer, and the breaker after it.
unfoldable pub allow_request : ℕ → CircuitBreaker → Bool × CircuitBreaker
allow_request now b = elim b.state [
  | closed ↦ (true, b)
  | open_circuit ↦ elim b.last_failure [
    | none ↦ (true, b)
    | some last_failure ↦
        if ltb b.timeout (now - last_failure)
        then (true, record b { state = half_open; success_count = 0 })
        else (false, b)
  ]
  | half_open ↦ (true, b)
]

-- self.state = Closed, and the counters and the last failure are forgotten.
unfoldable pub reset : CircuitBreaker → CircuitBreaker
reset b = record b { state = closed; failure_count = 0; success_count = 0; last_failure = none }

unfoldable pub record_success : CircuitBreaker → CircuitBreaker
unfolding reset
record_success b = elim b.state [
  | closed ↦ record b { failure_count = 0 }
  | half_open ↦
      let success_count : ℕ = (b.success_count + 1) % 2 ^ 32 in
      if leb b.success_threshold success_count
      then reset b
      else record b { success_count = success_count }
  | open_circuit ↦ reset b
]

unfoldable pub record_failure : ℕ → CircuitBreaker → CircuitBreaker
record_failure now b = elim b.state [
  | closed ↦
      let failure_count : ℕ = (b.failure_count + 1) % 2 ^ 32 in
      if leb b.failure_threshold failure_count
      then record b { last_failure = some now; failure_count = failure_count; state = open_circuit }
      else record b { last_failure = some now; failure_count = failure_count }
  | half_open ↦ record b { last_failure = some now; state = open_circuit; success_count = 0 }
  | open_circuit ↦ record b { last_failure = some now }
]

-- What happens to a breaker.
pub data Event : Type 0 where
  asked : (now : ℕ) → Event
  succeeded : Event
  failed : (now : ℕ) → Event

-- The answers to the requests in turn, and the breaker after all events.
unfoldable pub run : List Event → CircuitBreaker → List Bool × CircuitBreaker
unfolding allow_request record_success record_failure
run [] b = ([], b)
run (asked now ∷ events) b =
    let (allowed, b1) = allow_request now b in
    let (answers, b2) = run events b1 in (allowed ∷ answers, b2)
run (succeeded ∷ events) b = run events (record_success b)
run (failed now ∷ events) b = run events (record_failure now b)
