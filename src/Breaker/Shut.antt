-- ===== src/Breaker/Shut.antt =====
-- An open circuit until its recovery timeout has passed, whatever is reported to it.
use open_terminal_k8s_proxy.Base.{
  ℕ, ◌+◌, ◌≤◌, ◌<◌, ◌≡◌, refl, sym, ap, subst, false, some, List, [], ◌∷◌, All, arith,
}
use open_terminal_k8s_proxy.Breaker.{
  CircuitBreaker, opened, Event, asks, succeeds, fails, run, step, can_execute, record_success,
  record_failure,
}

-- The circuit is open, and its last failure came at `t` or later.
pub record IsShut (t timeout : ℕ) (b : CircuitBreaker) : Type 0 where
  pub is_open : b.state ≡ opened
  pub failed_at : ℕ
  pub failed : b.last_failure_time ≡ some failed_at
  pub late : t ≤ failed_at
  pub waits : b.recovery_timeout ≡ timeout

-- The time of a call, where it has one, is not before `t`, nor as late as the recovery.
abbrev pub IsTimely : ℕ → ℕ → Event → Type 0
IsTimely t timeout (asks now) = now < t + timeout
IsTimely t timeout succeeds = Unit
IsTimely t timeout (fails now) = t ≤ now

module _ (t timeout : ℕ) (b : CircuitBreaker) (h : IsShut t timeout b) where
  pub refused : (now : ℕ) → now < t + timeout → can_execute now b ≡ (false, b)
  unfolding can_execute
  refused now early = ground (arith, h.is_open, h.failed, h.late, h.waits)

  succeeding : record_success b ≡ b
  unfolding record_success
  succeeding = ground (arith, h.is_open)

  failing :
      (now : ℕ)
      → record_failure now b
        ≡ record b { failure_count = b.failure_count + 1; last_failure_time = some now }
  unfolding record_failure
  failing now = ground (arith, h.is_open)

  IsShut-step : (e : Event) → IsTimely t timeout e → IsShut t timeout (step e b)
  unfolding step
  IsShut-step (asks now) early =
      subst (IsShut t timeout) (sym (ap (λ r. r.1) (refused now early))) h
  IsShut-step succeeds early = subst (IsShut t timeout) (sym succeeding) h
  IsShut-step (fails now) late =
      subst (IsShut t timeout) (sym (failing now)) (record {
        is_open = h.is_open;
        failed_at = now;
        failed = refl;
        late = late;
        waits = h.waits;
      })

pub IsShut-run :
    (t timeout : ℕ) (es : List Event) (b : CircuitBreaker)
    → All (IsTimely t timeout) es
    → IsShut t timeout b
    → IsShut t timeout (run es b)
unfolding run
IsShut-run t timeout [] b a h = h
IsShut-run t timeout (e ∷ es) b a h =
    IsShut-run t timeout es (step e b) a.1 (IsShut-step t timeout b h e a.0)
