-- ===== src/Breaker.antt =====
-- terminal_proxy/circuit_breaker.py: `CircuitBreaker` and its registry. Every method body runs
-- under the breaker's own lock, so a call is one step; the time of `time.time()` is an argument.
pub mod History
pub mod Recovery
pub mod Registry
pub mod Shut
use open_terminal_k8s_proxy.Base.{
  ℕ, ◌+◌, Bool, true, false, Option, none, some, List, [], ◌∷◌, leb, ltb, eqb, if◌then◌else◌,
}

pub data CircuitState : Type 0 where
  closed opened half_open : CircuitState

-- Times are microseconds. The three first fields are the constructor's arguments.
pub record CircuitBreaker : Type 0 where
  pub failure_threshold : ℕ
  pub recovery_timeout : ℕ
  pub half_open_max_calls : ℕ
  pub state : CircuitState
  pub failure_count : ℕ
  pub last_failure_time : Option ℕ
  pub half_open_calls : ℕ

abbrev pub new_breaker : CircuitBreaker
new_breaker = record {
  failure_threshold = 5;
  recovery_timeout = 30000000;
  half_open_max_calls = 3;
  state = closed;
  failure_count = 0;
  last_failure_time = none;
  half_open_calls = 0;
}

-- `self._last_failure_time and time.time() - self._last_failure_time >= self.recovery_timeout`:
-- the number 0 is false in Python.
pub recovered : CircuitBreaker → ℕ → Option ℕ → Bool
recovered b now none = false
recovered b now (some t) = if eqb t 0 then false else leb (t + b.recovery_timeout) now

try_state : CircuitBreaker → ℕ → CircuitState → Bool × CircuitBreaker
unfolding recovered
try_state b now closed = (true, b)
try_state b now opened =
    if recovered b now b.last_failure_time
    then (true, record b { state = half_open; half_open_calls = 0 })
    else (false, b)
try_state b now half_open =
    if ltb b.half_open_calls b.half_open_max_calls
    then (true, record b { half_open_calls = b.half_open_calls + 1 })
    else (false, b)

unfoldable pub can_execute : ℕ → CircuitBreaker → Bool × CircuitBreaker
unfolding try_state
can_execute now b = try_state b now b.state

success_in : CircuitBreaker → CircuitState → CircuitBreaker
success_in b half_open = record b { state = closed; failure_count = 0; half_open_calls = 0 }
success_in b closed = record b { failure_count = 0 }
success_in b opened = b

unfoldable pub record_success : CircuitBreaker → CircuitBreaker
unfolding success_in
record_success b = success_in b b.state

failure_in : CircuitBreaker → CircuitState → CircuitBreaker
failure_in b half_open = record b { state = opened; half_open_calls = 0 }
failure_in b closed =
    if leb b.failure_threshold b.failure_count then record b { state = opened } else b
failure_in b opened = b

unfoldable pub record_failure : ℕ → CircuitBreaker → CircuitBreaker
unfolding failure_in
record_failure now b =
    let counted = record b { failure_count = b.failure_count + 1; last_failure_time = some now } in
    failure_in counted b.state

-- What a breaker's callers do: ask for permission, and report how a request ended.
pub data Event : Type 0 where
  asks : ℕ → Event
  succeeds : Event
  fails : ℕ → Event

unfoldable pub step : Event → CircuitBreaker → CircuitBreaker
step (asks now) b = (can_execute now b).1
step succeeds b = record_success b
step (fails now) b = record_failure now b

unfoldable pub run : List Event → CircuitBreaker → CircuitBreaker
run [] b = b
run (e ∷ es) b = run es (step e b)

-- How many of the requests at these times are let through, with no outcome reported in between.
unfoldable pub admitted : List ℕ → CircuitBreaker → ℕ
admitted [] b = 0
admitted (now ∷ nows) b =
    let (allowed, b') = can_execute now b in
    let rest = admitted nows b' in if allowed then rest + 1 else rest
