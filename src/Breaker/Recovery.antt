-- ===== src/Breaker/Recovery.antt =====
-- What the half-open state lets through, and how a breaker comes back from an open circuit.
use native.Mathlib.Decide.{dec_lt}
use open_terminal_k8s_proxy.Base.{
  ℕ, ◌+◌, ◌-◌, ◌≤◌, ◌<◌, min, ◌≡◌, ◌≢◌, refl, true, false, some, List, [], ◌∷◌, map, length, arith,
  All,
}
use open_terminal_k8s_proxy.Breaker.{
  CircuitBreaker, closed, opened, half_open, asks, succeeds, fails, step, run, admitted,
  can_execute, record_success, record_failure,
}

probe :
    (now : ℕ) (b : CircuitBreaker)
    → b.state ≡ half_open
    → b.half_open_calls < b.half_open_max_calls
    → can_execute now b ≡ (true, record b { half_open_calls = b.half_open_calls + 1 })
unfolding can_execute
probe now b s h = ground arith

exhausted :
    (now : ℕ) (b : CircuitBreaker)
    → b.state ≡ half_open
    → b.half_open_max_calls ≤ b.half_open_calls
    → can_execute now b ≡ (false, b)
unfolding can_execute
exhausted now b s h = ground arith

probes_left :
    (nows : List ℕ) (b : CircuitBreaker)
    → b.state ≡ half_open
    → admitted nows b ≡ min (length nows) (b.half_open_max_calls - b.half_open_calls)
unfolding admitted
probes_left [] b s = omega arith
probes_left (now ∷ nows) b s = elim (dec_lt b.half_open_calls b.half_open_max_calls) [
  | yes more ↦
      rw (probe now b s more)
        (omega (arith, probes_left nows (record b { half_open_calls = b.half_open_calls + 1 }) s))
  | no done ↦ rw (exhausted now b s (omega arith)) (omega (arith, probes_left nows b s))
]

refused :
    (now t : ℕ) (b : CircuitBreaker)
    → b.state ≡ opened
    → b.last_failure_time ≡ some t
    → now < t + b.recovery_timeout
    → can_execute now b ≡ (false, b)
unfolding can_execute
refused now t b s l h = ground arith

-- An open circuit refuses any number of requests, in whatever order their times are, as long as
-- they come before the recovery timeout has passed since the last failure, and is then as it was.
refuses_until_timeout :
    (nows : List ℕ) (t : ℕ) (b : CircuitBreaker)
    → b.state ≡ opened
    → b.last_failure_time ≡ some t
    → All (λ now. now < t + b.recovery_timeout) nows
    → (admitted nows b ≡ 0) × (run (map asks nows) b ≡ b)
unfolding admitted run step
refuses_until_timeout [] t b s l h = (refl, refl)
refuses_until_timeout (now ∷ nows) t b s l h =
    ground (arith, refused now t b s l h.0, refuses_until_timeout nows t b s l h.1)

-- The first request after the timeout is let through and makes the circuit half-open, with the
-- probe counter at 0.
wakes :
    (now t : ℕ) (b : CircuitBreaker)
    → b.state ≡ opened
    → b.last_failure_time ≡ some t
    → t ≢ 0
    → t + b.recovery_timeout ≤ now
    → can_execute now b ≡ (true, record b { state = half_open; half_open_calls = 0 })
unfolding can_execute
wakes now t b s l n h = ground arith

-- Of the requests from the first one after the timeout on, as long as no outcome is reported, one
-- more than `half_open_max_calls` are let through, and the others refused.
pub half_open_probes :
    (now t : ℕ) (nows : List ℕ) (b : CircuitBreaker)
    → b.state ≡ opened
    → b.last_failure_time ≡ some t
    → t ≢ 0
    → t + b.recovery_timeout ≤ now
    → admitted (now ∷ nows) b ≡ min (length nows) b.half_open_max_calls + 1
unfolding admitted
half_open_probes now t nows b s l n h =
    rw (wakes now t b s l n h)
      (omega (arith, probes_left nows (record b { state = half_open; half_open_calls = 0 }) refl))

-- A half-open circuit whose probes are used up refuses every later request, at whatever time, and
-- does not change: only a reported outcome gets it out.
exhausted_is_stuck :
    (nows : List ℕ) (b : CircuitBreaker)
    → b.state ≡ half_open
    → b.half_open_max_calls ≤ b.half_open_calls
    → (admitted nows b ≡ 0) × (run (map asks nows) b ≡ b)
unfolding admitted run step
exhausted_is_stuck [] b s h = (refl, refl)
exhausted_is_stuck (now ∷ nows) b s h =
    ground (arith, exhausted now b s h, exhausted_is_stuck nows b s h)

-- An open circuit whose timeout has passed closes by one request that succeeds, with no failure
-- counted, and lets the next request through; if that request fails, it is open again, from the
-- time of the new failure, whatever the counter was.
pub probe_decides :
    (now t later : ℕ) (b : CircuitBreaker)
    → b.state ≡ opened
    → b.last_failure_time ≡ some t
    → t ≢ 0
    → t + b.recovery_timeout ≤ now
    → let good = run (asks now ∷ succeeds ∷ []) b in
      let bad = run (asks now ∷ fails later ∷ []) b in
      (good.state ≡ closed)
      × (good.failure_count ≡ 0)
      × ((can_execute later good).0 ≡ true)
      × (bad.state ≡ opened)
      × (bad.last_failure_time ≡ some later)
      × (bad.half_open_calls ≡ 0)
unfolding run step record_success record_failure can_execute
probe_decides now t later b s l n h = ground (arith, wakes now t b s l n h)
