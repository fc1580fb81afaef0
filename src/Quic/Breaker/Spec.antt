-- ===== src/Quic/Breaker/Spec.antt =====
-- What a circuit breaker promises: the failures in a row while it lets requests through, the last
-- failure while it refuses them, and the successes in a row while it is on trial.
use landropic.Prelude.{ℕ, ◌+◌, ◌-◌, Bool, true, false, List, [], ◌∷◌, if◌then◌else◌, ltb, leb}
use landropic.Quic.Breaker.{Event, asked, succeeded, failed}

pub data Health : Type 0 where
  healthy : (streak : ℕ) → Health
  tripped : (since : ℕ) → Health
  on_trial : (successes : ℕ) → Health

module _ (failure_threshold success_threshold timeout : ℕ) where
  unfoldable pub ask : ℕ → Health → Bool × Health
  ask now (healthy streak) = (true, healthy streak)
  ask now (tripped since) =
      if ltb timeout (now - since) then (true, on_trial 0) else (false, tripped since)
  ask now (on_trial successes) = (true, on_trial successes)

  unfoldable pub succeed : Health → Health
  succeed (healthy streak) = healthy 0
  succeed (tripped since) = healthy 0
  succeed (on_trial successes) =
      if leb success_threshold (successes + 1) then healthy 0 else on_trial (successes + 1)

  unfoldable pub fail : ℕ → Health → Health
  fail now (healthy streak) =
      if leb failure_threshold (streak + 1) then tripped now else healthy (streak + 1)
  fail now (tripped since) = tripped now
  fail now (on_trial successes) = tripped now

  unfoldable pub spec_run : List Event → Health → List Bool × Health
  unfolding ask succeed fail
  spec_run [] h = ([], h)
  spec_run (asked now ∷ events) h =
      let (allowed, h1) = ask now h in
      let (answers, h2) = spec_run events h1 in (allowed ∷ answers, h2)
  spec_run (succeeded ∷ events) h = spec_run events (succeed h)
  spec_run (failed now ∷ events) h = spec_run events (fail now h)
