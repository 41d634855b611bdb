-- ===== src/Tests/Circuit.antt =====
-- The theorems on the circuit breaker at concrete breakers and registries.
use open_terminal_k8s_proxy.Base.{
  ℕ, ◌+◌, min, ◌≡◌, refl, true, String, some, List, [], ◌∷◌, length, arith, leb, if◌then◌else◌,
}
use open_terminal_k8s_proxy.Breaker.{
  CircuitBreaker, closed, opened, half_open, Event, asks, succeeds, fails, run, admitted,
  can_execute, new_breaker,
}
use open_terminal_k8s_proxy.Breaker.History.{
  IsValid, run-IsValid, new_breaker-IsValid, failures, opens_at_threshold,
}
use open_terminal_k8s_proxy.Breaker.Recovery.{half_open_probes, probe_decides}
use open_terminal_k8s_proxy.Breaker.Registry.{Registry, serve, breaker, events_of, breaker-serve}

-- A breaker that its fifth failure, at 100 microseconds, has opened.
abbrev tripped : CircuitBreaker
tripped = record new_breaker { state = opened; failure_count = 5; last_failure_time = some 100 }

-- A breaker whose three probes are under way.
abbrev probing : CircuitBreaker
probing = record new_breaker {
  state = half_open;
  failure_count = 5;
  last_failure_time = some 100;
  half_open_calls = 3;
}

abbrev history : List Event
history = fails 1 ∷ fails 2 ∷ fails 3 ∷ fails 4 ∷ fails 5 ∷ asks 6 ∷ asks 40000000 ∷ succeeds ∷ []

abbrev two_keys : List (String × Event)
two_keys = ("a", fails 1) ∷ ("b", fails 2) ∷ ("a", fails 3) ∷ ("a", succeeds) ∷ []

abbrev one_open : Registry
one_open = ("a", tripped) ∷ []

run-IsValid_example : IsValid (run history new_breaker)
run-IsValid_example = run-IsValid history new_breaker new_breaker-IsValid

opens_at_threshold_example :
    (run (failures (1 ∷ 2 ∷ 3 ∷ 4 ∷ 5 ∷ [])) new_breaker).state
    ≡ (if leb 5 (0 + length {A = ℕ} (1 ∷ 2 ∷ 3 ∷ 4 ∷ 5 ∷ [])) then opened else closed)
opens_at_threshold_example =
    opens_at_threshold (1 ∷ 2 ∷ 3 ∷ 4 ∷ 5 ∷ []) new_breaker refl (omega arith)

half_open_probes_example :
    admitted (40000000 ∷ 40000001 ∷ 40000002 ∷ 40000003 ∷ 40000004 ∷ []) tripped
    ≡ min (length {A = ℕ} (40000001 ∷ 40000002 ∷ 40000003 ∷ 40000004 ∷ [])) 3 + 1
half_open_probes_example =
    half_open_probes 40000000 100 (40000001 ∷ 40000002 ∷ 40000003 ∷ 40000004 ∷ []) tripped refl refl
      (λ e. omega (arith, e)) (omega arith)

probe_decides_example :
    let good = run (asks 40000000 ∷ succeeds ∷ []) tripped in
    let bad = run (asks 40000000 ∷ fails 41000000 ∷ []) tripped in
    (good.state ≡ closed)
    × (good.failure_count ≡ 0)
    × ((can_execute 41000000 good).0 ≡ true)
    × (bad.state ≡ opened)
    × (bad.last_failure_time ≡ some 41000000)
    × (bad.half_open_calls ≡ 0)
probe_decides_example =
    probe_decides 40000000 100 41000000 tripped refl refl (λ e. omega (arith, e)) (omega arith)

breaker-serve_example :
    breaker "a" (serve two_keys []) ≡ run (events_of "a" two_keys) (breaker "a" [])
breaker-serve_example = breaker-serve "a" two_keys []
