-- ===== src/Breaker/History.antt =====
-- What holds of a breaker after any history of calls.
use native.Mathlib.Decide.{dec_le}
use open_terminal_k8s_proxy.Base.{
  ℕ, ◌+◌, ◌≤◌, ◌<◌, ◌≡◌, ◌≢◌, refl, none, List, [], ◌∷◌, map, length, arith, leb, if◌then◌else◌,
}
use open_terminal_k8s_proxy.Breaker.{
  CircuitBreaker, closed, opened, half_open, Event, asks, succeeds, fails, step, run, new_breaker,
  can_execute, record_success, record_failure,
}

pub record IsValid (b : CircuitBreaker) : Type 0 where
  pub below : b.state ≡ closed → b.failure_count < b.failure_threshold
  pub stamped : b.state ≢ closed → b.last_failure_time ≢ none
  pub probes : b.half_open_calls ≤ b.half_open_max_calls
  pub quiet : b.state ≢ half_open → b.half_open_calls ≡ 0
  pub threshold : 0 < b.failure_threshold

pub step-IsValid : (e : Event) (b : CircuitBreaker) → IsValid b → IsValid (step e b)
unfolding step can_execute record_success record_failure
step-IsValid (asks now) b v = ground arith
step-IsValid succeeds b v = ground arith
step-IsValid (fails now) b v = ground arith

-- After any history of calls from a valid breaker: a closed circuit has fewer consecutive failures
-- than the threshold, one that is not closed has a failure time, and the probe counter is within
-- its limit and zero outside the half-open state.
pub run-IsValid : (es : List Event) (b : CircuitBreaker) → IsValid b → IsValid (run es b)
unfolding run
run-IsValid [] b v = v
run-IsValid (e ∷ es) b v = run-IsValid es (step e b) (step-IsValid e b v)

pub new_breaker-IsValid : IsValid new_breaker
new_breaker-IsValid = record {
  below = λ _. omega arith;
  stamped = λ n. absurd (n refl);
  probes = omega arith;
  quiet = λ _. refl;
  threshold = omega arith;
}

-- Failures in a row, with the circuit closed at the start.
abbrev pub failures : List ℕ → List Event
failures = map fails

stays_open :
    (nows : List ℕ) (b : CircuitBreaker) → b.state ≡ opened → (run (failures nows) b).state ≡ opened
unfolding run step record_failure
stays_open [] b h = h
stays_open (now ∷ nows) b h = stays_open nows (record_failure now b) (ground arith)

fail_below :
    (now : ℕ) (b : CircuitBreaker)
    → b.state ≡ closed
    → b.failure_count + 1 < b.failure_threshold
    → ((record_failure now b).state ≡ closed)
      × ((record_failure now b).failure_count ≡ b.failure_count + 1)
      × ((record_failure now b).failure_threshold ≡ b.failure_threshold)
unfolding record_failure
fail_below now b c h = ground arith

fail_at :
    (now : ℕ) (b : CircuitBreaker)
    → b.state ≡ closed
    → b.failure_threshold ≤ b.failure_count + 1
    → (record_failure now b).state ≡ opened
unfolding record_failure
fail_at now b c h = ground arith

-- From a closed circuit below its threshold, failures in a row with no success between them open
-- the circuit exactly when the count, with those before, reaches the threshold.
pub opens_at_threshold :
    (nows : List ℕ) (b : CircuitBreaker)
    → b.state ≡ closed
    → b.failure_count < b.failure_threshold
    → (run (failures nows) b).state
      ≡ (if leb b.failure_threshold (b.failure_count + length nows) then opened else closed)
unfolding run step
opens_at_threshold [] b c h = ground arith
opens_at_threshold (now ∷ nows) b c h = elim (dec_le b.failure_threshold (b.failure_count + 1)) [
  | yes reached ↦
      let last = stays_open nows (record_failure now b) (fail_at now b c reached) in
      ground (arith, last)
  | no under ↦
      let (c', n, t) = fail_below now b c (omega arith) in
      ground
        (arith, c', n, t, opens_at_threshold nows (record_failure now b) c' (omega (arith, n, t)))
]
