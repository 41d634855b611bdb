-- ===== src/Kube/Waiting.antt =====
-- The rounds of `wait_for_pod_ready` and the clock.
use open_terminal_k8s_proxy.Base.{
  ℕ, zero, suc, ◌+◌, ◌*◌, ◌≤◌, ◌≡◌, ◌≢◌, inl, inr, true, String, Option, none, some, truthy, leb,
  arith, Bool-cases, Option-cases,
}
use open_terminal_k8s_proxy.Base.Exec.{
  ok, Exec, pure, modify, ◌>>=◌, Preserves, preserving, Preserves-bind, Preserves-attempt,
  Exec-cases,
}
use open_terminal_k8s_proxy.Kube.{Client, Env, Pod, Request, RetryLaws, http_get}
use open_terminal_k8s_proxy.Kube.Methods.{policy, send}
use open_terminal_k8s_proxy.Kube.Ready.{
  Ready, sleep, poll_interval, probe, judge, poll, next, wait_loop, wait_for_pod_ready,
}
use open_terminal_k8s_proxy.Kube.Rules.{IsStable, get_pod-Preserves}

-- The event loop's clock never goes back, and a sleep lasts at least as long as it should.
pub record ClockLaws {W : Type 0} (env : Env W) : Type 0 where
  pub reading : (w : W) → (env.loop_time w).0 ≤ (env.loop_time (env.loop_time w).1).0
  pub answering : (r : Request) (w : W) → (env.loop_time w).0 ≤ (env.loop_time (env.answer r w).1).0
  pub sleeping : (n : ℕ) (w : W) → (env.loop_time w).0 + n ≤ (env.loop_time (env.sleep n w)).0
  pub pausing : (n : ℕ) (w : W) → (env.loop_time w).0 ≤ (env.loop_time (env.pause policy n w)).0

module _ {W : Type 0} ⦃env : Env W⦄ where
  -- The clock shows at least `t`.
  record IsPast (t : ℕ) (c : Client W) : Type 0 where
    past : t ≤ (env.loop_time c.world).0

  IsPast-stable : (t : ℕ) → ClockLaws env → IsStable env (IsPast t) (λ _. Unit {0})
  unfolding send modify
  IsPast-stable t clock = record {
    sending = λ r _. record {
      at = λ c h. record { past = omega (arith, h.past, clock.answering r c.world) };
    };
    pausing = λ n c h. record { past = omega (arith, h.past, clock.pausing n c.world) };
    starting = record { at = λ c h. record { past = h.past } };
    incluster = tt;
    kubeconfig = tt;
  }

module _ {W : Type 0} ⦃env : Env W⦄ (clock : ClockLaws env) (laws : RetryLaws env) (t : ℕ) where
  IsPast-probe :
      (service_name ip : String) → Preserves {S = Client W} (IsPast t) (probe service_name ip)
  unfolding probe
  IsPast-probe service_name ip =
      Preserves-attempt _ _
        (Preserves-bind _ _ ((IsPast-stable t clock).sending (http_get _) tt)
          (λ _. search preserving))
        (λ _. search preserving)

  IsPast-judge :
      (service_name : String) (pod : Option Pod)
      → Preserves {S = Client W} (IsPast t) (judge service_name pod)
  unfolding judge
  IsPast-judge service_name none = search preserving
  IsPast-judge service_name (some pod) = elim (Option-cases (truthy pod.pod_ip)) [
    | inl e ↦ rw (e, judge) (search preserving depth 8)
    | inr (ip, e) ↦ rw (e, judge) (search (preserving, IsPast-probe) depth 8)
  ]

  IsPast-poll :
      (pod_name service_name : String)
      → Preserves {S = Client W} (IsPast t) (poll pod_name service_name)
  unfolding poll
  IsPast-poll pod_name service_name =
      Preserves-bind _ _ (get_pod-Preserves laws (IsPast-stable t clock) pod_name (λ _. tt))
        (IsPast-judge service_name)

  IsPast-poll_at :
      (pod_name service_name : String) (c : Client W)
      → t ≤ (env.loop_time c.world).0
      → t ≤ (env.loop_time (poll pod_name service_name c).1.world).0
  IsPast-poll_at pod_name service_name c h =
      ((IsPast-poll pod_name service_name).at c (record { past = h })).past

module _ {W : Type 0} ⦃env : Env W⦄ where
  -- A round ends as its poll or as the rounds that follow.
  next-ends :
      (verdict rest : Exec (Client W) (Option Ready)) (c : Client W)
      → (rest (sleep (verdict c).1).1).0 ≢ ok none
      → ((verdict >>= next rest) c).0 ≢ ok none
  unfolding ◌>>=◌ next pure
  next-ends verdict rest c rest_ends = elim (Exec-cases verdict c) [
    | inl (none, e) ↦ rw (e) rest_ends
    | inl (some r, e) ↦ rw (e) (λ same. cc)
    | inr (x, e) ↦ rw (e) (λ same. cc)
  ]

module _ {W : Type 0} ⦃env : Env W⦄ (clock : ClockLaws env) (laws : RetryLaws env) where
  wait_loop_ends :
      (left start limit : ℕ) (pod_name service_name : String) (c : Client W)
      → start + limit ≤ (env.loop_time c.world).0 + left * poll_interval
      → (wait_loop (suc left) start limit pod_name service_name c).0 ≢ ok none
  unfolding wait_loop ◌>>=◌ pure
  wait_loop_ends zero start limit pod_name service_name c enough =
      let over : leb (start + limit) (env.loop_time c.world).0 ≡ true = ground arith in
      rw (over) (λ same. cc)
  wait_loop_ends (suc left) start limit pod_name service_name c enough =
      let now = (env.loop_time c.world).0 in
      let c1 = record c { world = (env.loop_time c.world).1 } in
      let c2 = (poll pod_name service_name c1).1 in
      let polled = IsPast-poll_at clock laws now pod_name service_name c1 (clock.reading c.world) in
      let slept = clock.sleeping poll_interval c2.world in
      elim (Bool-cases (leb (start + limit) now)) [
        | inl e ↦ rw (e) (λ same. cc)
        | inr e ↦ rw (e) (
            next-ends (poll pod_name service_name) _ c1 (
              wait_loop_ends left start limit pod_name service_name (sleep c2).1
                (omega (arith, enough, polled, slept))))
      ]

  -- On a clock that does not go back, with sleeps that last, and under the documented laws of
  -- `retry`, `wait_for_pod_ready` ends: its rounds never outnumber two for each second of the
  -- timeout and one for the last test.
  pub wait_for_pod_ready_ends :
      (pod_name service_name : String) (timeout_seconds : ℕ) (c : Client W)
      → (wait_for_pod_ready pod_name service_name timeout_seconds c).0 ≢ ok none
  unfolding wait_for_pod_ready ◌>>=◌
  wait_for_pod_ready_ends pod_name service_name timeout_seconds c =
      let c1 = record c { world = (env.loop_time c.world).1 } in
      let rounds : 2 * timeout_seconds + 1 ≡ suc (2 * timeout_seconds) = omega arith in
      rw (rounds) (
        wait_loop_ends (2 * timeout_seconds) (env.loop_time c.world).0 (timeout_seconds * 1000000)
          pod_name service_name c1 (omega (arith, clock.reading c.world)))
