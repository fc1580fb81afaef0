-- ===== src/Quic/Recovery/Attempts.antt =====
-- How the loop over the attempts ends, and what it leaves in the breaker of the address.
use landropic.Prelude.{
  ℕ, zero, suc, ◌+◌, ◌-◌, ◌*◌, ◌^◌, ◌≤◌, ◌<◌, ◌≡◌, refl, Option, none, some, true, false, ◌++◌, Str,
  codes, str_eq_refl, arith, Bool-cases, inl, inr, ◌⊎◌, ◌==◌, ==_iff,
}
use mathlib.Core.Path.{subst}
use landropic.Prelude.Dict.{Dict, lookup, lookup-insert}
use landropic.Quic.Errors.{QuicError, is_recoverable, clone}
use landropic.Quic.Breaker.{
  CircuitBreaker, CircuitState, closed, open_circuit, allow_request, record_success, record_failure,
}
use landropic.Quic.Breaker
use landropic.Quic.Recovery.{
  Result, done, error, Retried, with_breaker, give_up, attempt_loop, with_retry,
}

pub Result-cases :
    {T : Type 0} (r : Result T) → ((v : T) × (r ≡ done v)) ⊎ ((e : QuicError) × (r ≡ error e))
Result-cases (done v) = inl (v, refl)
Result-cases (error e) = inr (e, refl)

-- The attempt fails with an error that may be tried again.
abbrev pub Recoverable : {T : Type 0} → Result T → Type 0
Recoverable r = (e : QuicError) × ((r ≡ error e) × (is_recoverable e ≡ true))

-- The attempt ends the loop with the result: a success, or an error that is not tried again.
abbrev pub Concludes : {T : Type 0} → Result T → Result T → Type 0
Concludes {T} r result =
    ((v : T) × ((r ≡ done v) × (result ≡ done v)))
    ⊎ ((e : QuicError) × ((r ≡ error e)
          × ((is_recoverable e ≡ false) × (result ≡ error (clone e)))))

module _ {T : Type 0} (operation : ℕ → Result T) where
  -- The attempts from `i` on, as many as `rounds`: one of them ends the loop and those before it may be tried
  -- again, or all of them may, and the last error is given.
  pub Ends : ℕ → ℕ → Option QuicError → Str → Retried T → Type 0
  Ends i rounds last_error message r =
      ((k : ℕ) × ((i ≤ k)
          × ((k < i + rounds)
              × (((j : ℕ) → i ≤ j → j < k → Recoverable (operation j))
                  × ((r.attempts ≡ k + 1) × Concludes (operation k) r.result)))))
      ⊎ (((j : ℕ) → i ≤ j → j < i + rounds → Recoverable (operation j))
          × ((r.attempts ≡ i + rounds)
              × (((rounds ≡ 0) × (r.result ≡ error (give_up last_error message)))
                  ⊎ ((e : QuicError) × ((operation (i + rounds - 1) ≡ error e)
                        × (r.result ≡ error (clone e)))))))

  pub at_or_later :
      (i : ℕ) (e : QuicError)
      → operation i ≡ error e
      → is_recoverable e ≡ true
      → (j : ℕ) → ((i + 1 ≤ j) → Recoverable (operation j))
      → i ≤ j
      → Recoverable (operation j)
  at_or_later i e f g j later h = elim (Bool-cases (i == j)) [
    | inl same ↦
        let at : i ≡ j = (==_iff i j).0 same in
        subst (λ k. Recoverable (operation k)) at (e, (f, g))
    | inr other ↦ later (ground (arith, other))
  ]

module _ {T : Type 0} (operation : ℕ → Result T) (clock : ℕ → ℕ) (addr : Str) where
  Ends-step :
      (i rounds : ℕ) (e : QuicError) (last_error : Option QuicError) (message : Str) (r : Retried T)
      → operation i ≡ error e
      → is_recoverable e ≡ true
      → Ends operation (i + 1) rounds (some (clone e)) message r
      → Ends operation i (suc rounds) last_error message r
  unfolding Ends give_up
  Ends-step i rounds e last_error message r f g (inl (k, (low, (high, (before, rest))))) = inl (
    k,
    (
      omega arith,
      (omega arith, ((λ j h h'. at_or_later operation i e f g j (λ l. before j l h') h), rest)),
    ),
  )
  Ends-step i rounds e last_error message r f g (inr (before, (count, inl (none_left, result)))) =
      let last : i ≡ i + suc rounds - 1 = omega arith in
      inr (
        (λ j h h'. at_or_later operation i e f g j (λ l. before j l (omega arith)) h),
        (omega (arith, count), inr (e, (subst (λ k. operation k ≡ error e) last f, result))),
      )
  Ends-step i rounds e last_error message r f g (inr (before, (count, inr (e', (f', result))))) =
      let last : i + 1 + rounds - 1 ≡ i + suc rounds - 1 = omega arith in
      inr (
        (λ j h h'. at_or_later operation i e f g j (λ l. before j l (omega arith)) h),
        (omega (arith, count), inr (e', (subst (λ k. operation k ≡ error e') last f', result))),
      )

  attempt_loop-Ends :
      (rounds i : ℕ) (last_error : Option QuicError) (message : Str)
      (breakers : Dict CircuitBreaker)
      → Ends operation i rounds last_error message
          (attempt_loop operation clock addr rounds i last_error message breakers)
  unfolding Ends attempt_loop
  attempt_loop-Ends zero i last_error message breakers =
      inr ((λ j h h'. absurd (omega arith)), (omega arith, inl (refl, refl)))
  attempt_loop-Ends (suc rounds) i last_error message breakers = elim (Result-cases (operation i)) [
    | inl (v, f) ↦
        rw (f, attempt_loop)
          (inl (
            i,
            (
              omega arith,
              (omega arith, ((λ j h h'. absurd (omega arith)), (refl, inl (v, (f, refl))))),
            ),
          ))
    | inr (e, f) ↦ elim (Bool-cases (is_recoverable e)) [
      | inl g ↦
          rw (f, g, attempt_loop)
            (Ends-step i rounds e last_error message
              (attempt_loop operation clock addr rounds (i + 1) (some (clone e)) message
                (with_breaker addr (record_failure (clock i)) breakers))
              f g
              (attempt_loop-Ends rounds (i + 1) (some (clone e)) message
                (with_breaker addr (record_failure (clock i)) breakers)))
      | inr g ↦
          rw (f, g, attempt_loop)
            (inl (
              i,
              (
                omega arith,
                (omega arith, ((λ j h h'. absurd (omega arith)), (refl, inr (e, (f, (g, refl)))))),
              ),
            ))
    ]
  ]

  -- The failures of attempts `i` on, as many as there are.
  pub fail_times : ℕ → ℕ → CircuitBreaker → CircuitBreaker
  fail_times zero i b = b
  fail_times (suc n) i b = fail_times n (i + 1) (record_failure (clock i) b)

  lookup-with_breaker :
      (f : CircuitBreaker → CircuitBreaker) (breakers : Dict CircuitBreaker) (b : CircuitBreaker)
      → lookup addr breakers ≡ some b
      → lookup addr (with_breaker addr f breakers) ≡ some (f b)
  unfolding with_breaker
  lookup-with_breaker f breakers b found =
      rw (found, with_breaker)
        (ground (arith, lookup-insert addr addr (f b) breakers, str_eq_refl addr))

  pub attempt_loop-fail_times :
      (rounds i : ℕ) (last_error : Option QuicError) (message : Str)
      (breakers : Dict CircuitBreaker) (b : CircuitBreaker)
      → ((j : ℕ) → i ≤ j → j < i + rounds → Recoverable (operation j))
      → lookup addr breakers ≡ some b
      → lookup addr
          (attempt_loop operation clock addr rounds i last_error message breakers).breakers
        ≡ some (fail_times rounds i b)
  unfolding attempt_loop fail_times with_breaker
  attempt_loop-fail_times zero i last_error message breakers b h found = found
  attempt_loop-fail_times (suc rounds) i last_error message breakers b h found =
      let (e, (f, g)) = h i (omega arith) (omega arith) in
      let failed_breakers = with_breaker addr (record_failure (clock i)) breakers in
      rw (f, g, attempt_loop)
        (attempt_loop-fail_times rounds (i + 1) (some (clone e)) message failed_breakers
          (record_failure (clock i) b) (λ j l l'. h j (omega arith) (omega arith))
          (lookup-with_breaker (record_failure (clock i)) breakers b found))

  -- The breaker is open since `t`, with the timeout.
  pub record OpenSince (t timeout : ℕ) (b : CircuitBreaker) : Type 0 where
    pub open_now : b.state ≡ open_circuit
    pub since : b.last_failure ≡ some t
    pub waits : b.timeout ≡ timeout

  failure-OpenSince :
      (now t timeout : ℕ) (b : CircuitBreaker)
      → OpenSince t timeout b
      → OpenSince now timeout (record_failure now b)
  unfolding record_failure
  failure-OpenSince now t timeout b o = record {
    open_now = ground (arith, o.open_now);
    since = ground (arith, o.open_now);
    waits = ground (arith, o.open_now, o.waits);
  }

  fail_times-OpenSince :
      (n i t timeout : ℕ) (b : CircuitBreaker)
      → OpenSince t timeout b
      → OpenSince (clock (i + n)) timeout (fail_times (suc n) i b)
  unfolding fail_times
  fail_times-OpenSince zero i t timeout b o =
      let at : i ≡ i + 0 = omega arith in
      subst (λ k. OpenSince (clock k) timeout (record_failure (clock i) b)) at
        (failure-OpenSince (clock i) t timeout b o)
  fail_times-OpenSince (suc n) i t timeout b o =
      let at : i + 1 + n ≡ i + suc n = omega arith in
      subst
        (λ k. OpenSince (clock k) timeout (fail_times (suc n) (i + 1) (record_failure (clock i) b)))
        at
        (fail_times-OpenSince n (i + 1) (clock i) timeout (record_failure (clock i) b)
          (failure-OpenSince (clock i) t timeout b o))

  -- Three failures open a fresh breaker.
  pub fresh-OpenSince :
      (n : ℕ)
      → OpenSince
          (clock (n + 2))
          (30 * 10 ^ 9)
          (fail_times (suc (suc (suc n))) 0 (Breaker.new 3 2 (30 * 10 ^ 9)))
  unfolding fail_times record_failure Breaker.new
  fresh-OpenSince zero = record { open_now = refl; since = refl; waits = refl }
  fresh-OpenSince (suc n) =
      let opened =
        record_failure (clock 2)
          (record_failure (clock 1) (record_failure (clock 0) (Breaker.new 3 2 (30 * 10 ^ 9)))) in
      let at : 3 + n ≡ suc n + 2 = omega arith in
      subst (λ k. OpenSince (clock k) (30 * 10 ^ 9) (fail_times (suc n) 3 opened)) at
        (fail_times-OpenSince n 3 (clock 2) (30 * 10 ^ 9) opened
          (record { open_now = refl; since = refl; waits = refl }))

  Ends-bounded :
      (rounds : ℕ) (last_error : Option QuicError) (message : Str) (r : Retried T)
      → Ends operation 0 rounds last_error message r
      → r.attempts ≤ rounds
  unfolding Ends
  Ends-bounded rounds last_error message r (inl (k, (low, (high, (before, (count, rest)))))) =
      omega arith
  Ends-bounded rounds last_error message r (inr (before, (count, rest))) = omega arith

  -- The operation is tried at most `max_attempts` times. The attempt that succeeds, or that fails for good, is the
  -- last and gives the result; where none does, all are made and the last error is given.
  pub with_retry-Ends :
      (decimal : ℕ → Str) (max_attempts : ℕ) (breakers : Dict CircuitBreaker)
      → ((with_retry decimal max_attempts operation clock addr breakers).attempts ≤ max_attempts)
        × Ends operation 0 max_attempts none
            (codes "All " ++ decimal max_attempts ++ codes " operation attempts failed")
            (with_retry decimal max_attempts operation clock addr breakers)
  unfolding with_retry
  with_retry-Ends decimal max_attempts breakers =
      let message = codes "All " ++ decimal max_attempts ++ codes " operation attempts failed" in
      let ends = attempt_loop-Ends max_attempts 0 none message breakers in
      (
        Ends-bounded max_attempts none message
            (attempt_loop operation clock addr max_attempts 0 none message breakers) ends,
        ends,
      )
