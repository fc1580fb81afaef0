-- ===== src/Quic/Recovery/Refusal.antt =====
-- A connection that keeps failing is refused for a while.
use landropic.Prelude.{
  ℕ, suc, ◌+◌, ◌*◌, ◌^◌, ◌≤◌, ◌<◌, ◌≡◌, refl, none, some, true, false, Str, codes, ◌++◌,
  str_eq_refl, arith, List, [], ◌∷◌, All,
}
use mathlib.Core.Path.{sym, subst}
use landropic.Prelude.Dict.{Dict, lookup, insert, lookup-insert}
use landropic.Quic.Errors.{protocol}
use landropic.Quic.Breaker.{CircuitBreaker, allow_request}
use landropic.Quic.Breaker
use landropic.Quic.Breaker.Recovers.{request_refused}
use landropic.Quic.Recovery.{
  Result, Retried, error, breaker_for, attempt_loop, connect_with_recovery,
}
use landropic.Quic.Recovery.Attempts.{
  Recoverable, OpenSince, fail_times, attempt_loop-fail_times, fresh-OpenSince,
}

-- A further connection: its limit, its operation, its clock and the instant at which it is started
pub record Start (S : Type 0) : Type 0 where
  pub max_attempts : ℕ
  pub operation : ℕ → Result S
  pub clock : ℕ → ℕ
  pub now : ℕ

module _ {T : Type 0} (decimal : ℕ → Str) (n : ℕ) (operation : ℕ → Result T) (clock : ℕ → ℕ)
    (addr : Str) where
  fresh_allowed :
      (now : ℕ) (breakers : Dict CircuitBreaker)
      → lookup addr breakers ≡ none
      → allow_request now (breaker_for addr breakers) ≡ (true, Breaker.new 3 2 (30 * 10 ^ 9))
  unfolding allow_request breaker_for Breaker.new
  fresh_allowed now breakers fresh = rw (fresh, breaker_for) refl

  fresh_loop :
      (now : ℕ) (breakers : Dict CircuitBreaker)
      → lookup addr breakers ≡ none
      → connect_with_recovery decimal (n + 3) operation clock addr now breakers
        ≡ attempt_loop operation clock addr
            (n + 3)
            0
            none
            (codes "All " ++ decimal (n + 3) ++ codes " connection attempts failed")
            (insert addr (Breaker.new 3 2 (30 * 10 ^ 9)) breakers)
  unfolding connect_with_recovery
  fresh_loop now breakers fresh =
      rw (fresh_allowed now breakers fresh, connect_with_recovery)
        (rw (fresh_allowed now breakers fresh) refl)

  opened :
      (now : ℕ) (breakers : Dict CircuitBreaker)
      → lookup addr breakers ≡ none
      → ((j : ℕ) → j < n + 3 → Recoverable (operation j))
      → (b : CircuitBreaker) × ((lookup addr
              (connect_with_recovery decimal (n + 3) operation clock addr now breakers).breakers
            ≡ some b)
          × OpenSince operation clock addr (clock (n + 2)) (30 * 10 ^ 9) b)
  opened now breakers fresh fails =
      let breaker = Breaker.new 3 2 (30 * 10 ^ 9) in
      let message = codes "All " ++ decimal (n + 3) ++ codes " connection attempts failed" in
      let count : n + 3 ≡ suc (suc (suc n)) = omega arith in
      let kept : lookup addr (insert addr breaker breakers) ≡ some breaker =
        ground (arith, lookup-insert addr addr breaker breakers, str_eq_refl addr) in
      (
        fail_times operation clock addr (n + 3) 0 breaker,
        (
          rw (fresh_loop now breakers fresh) (
              attempt_loop-fail_times operation clock addr (n + 3) 0 none message
                (insert addr breaker breakers) breaker (λ j l h. fails j (omega arith)) kept),
          subst
              (λ k.
                OpenSince operation clock addr (clock (n + 2)) (30 * 10 ^ 9)
                  (fail_times operation clock addr k 0 breaker))
              (sym count) (fresh-OpenSince operation clock addr n),
        ),
      )

  -- The connection is refused without an attempt.
  abbrev pub IsRefused : {S : Type 0} → Retried S → Type 0
  IsRefused r =
      (r.attempts ≡ 0)
      × (r.result
          ≡ error (
              protocol
                (codes "Circuit breaker open for peer " ++ addr ++ codes ", rejecting request")))

  refused :
      {S : Type 0} (max_attempts : ℕ) (other : ℕ → Result S) (clock' : ℕ → ℕ) (now t : ℕ)
      (breakers : Dict CircuitBreaker) (b : CircuitBreaker)
      → lookup addr breakers ≡ some b
      → OpenSince operation clock addr t (30 * 10 ^ 9) b
      → now ≤ t + 30 * 10 ^ 9
      → let r = connect_with_recovery decimal max_attempts other clock' addr now breakers in
        IsRefused r × (lookup addr r.breakers ≡ some b)
  unfolding connect_with_recovery breaker_for
  refused max_attempts other clock' now t breakers b found o soon =
      let no : allow_request now b ≡ (false, b) =
        request_refused b t now o.open_now o.since (rw o.waits soon) in
      (
        (
          rw (found, no, breaker_for, connect_with_recovery) refl,
          rw (found, no, breaker_for, connect_with_recovery) refl,
        ),
        rw (found, no, breaker_for, connect_with_recovery)
            (ground (arith, lookup-insert addr addr b breakers, str_eq_refl addr)),
      )

  -- The connections that are started in turn, each on the breakers that the one before it left, are all refused.
  abbrev pub AllRefused : {S : Type 0} → List (Start S) → Dict CircuitBreaker → Type 0
  AllRefused [] breakers = Unit
  AllRefused (start ∷ starts) breakers =
      let r =
        connect_with_recovery decimal start.max_attempts start.operation start.clock addr start.now
          breakers in
      IsRefused r × AllRefused starts r.breakers

  all_refused :
      {S : Type 0} (starts : List (Start S)) (t : ℕ) (breakers : Dict CircuitBreaker)
      (b : CircuitBreaker)
      → lookup addr breakers ≡ some b
      → OpenSince operation clock addr t (30 * 10 ^ 9) b
      → All (λ start. start.now ≤ t + 30 * 10 ^ 9) starts
      → AllRefused starts breakers
  all_refused [] t breakers b found o soon = tt
  all_refused (start ∷ starts) t breakers b found o (now_soon, soon) =
      let (refusal, kept) =
        refused start.max_attempts start.operation start.clock start.now t breakers b found o
          now_soon in
      (refusal, all_refused starts t _ b kept o soon)

  -- Where an address has no breaker yet and all attempts, at least three, fail with errors that may be tried again: of the
  -- connections that are then started in turn, each within 30 seconds of the last failure, every one is refused without an attempt.
  pub connect_with_recovery-AllRefused :
      {S : Type 0} (starts : List (Start S)) (now : ℕ) (breakers : Dict CircuitBreaker)
      → lookup addr breakers ≡ none
      → ((j : ℕ) → j < n + 3 → Recoverable (operation j))
      → All (λ start. start.now ≤ clock (n + 2) + 30 * 10 ^ 9) starts
      → AllRefused starts
          (connect_with_recovery decimal (n + 3) operation clock addr now breakers).breakers
  connect_with_recovery-AllRefused starts now breakers fresh fails soon =
      let (b, (found, o)) = opened now breakers fresh fails in
      all_refused starts (clock (n + 2)) _ b found o soon
