-- ===== src/Kube/Ready.antt =====
-- `K8sClient.wait_for_pod_ready`: polling until the pod is up, with the clock as the loop's bound.
use open_terminal_k8s_proxy.Base.{
  ℕ, suc, zero, ◌+◌, ◌*◌, Bool, true, false, String, ◌<>◌, ◌==◌, ◌||◌, Option, none, some, leb, eqb,
  truthy, if◌then◌else◌,
}
use open_terminal_k8s_proxy.Base.Exec.{
  Exn, httpx_connect, httpx_timeout, httpx_other, ok, Exec, pure, raise, attempt, ◌>>=◌, ◌>>◌,
}
use open_terminal_k8s_proxy.Kube.{Client, Env, Pod, http_get}
use open_terminal_k8s_proxy.Kube.Methods.{get_pod, send}

-- What ends the wait: whether the pod is ready, and its IP.
abbrev pub Ready : Type 0
Ready = Bool × Option String

unfoldable pub is_http_error : Exn → Bool
is_http_error httpx_connect = true
is_http_error httpx_timeout = true
is_http_error httpx_other = true
is_http_error _ = false

-- Half a second, in microseconds.
abbrev pub poll_interval : ℕ
poll_interval = 500000

module _ {W : Type 0} ⦃env : Env W⦄ where
  abbrev pub loop_time : Exec (Client W) ℕ
  loop_time c = let (now, w) = env.loop_time c.world in (ok now, record c { world = w })

  abbrev pub sleep : Exec (Client W) Unit
  sleep c = (ok tt, record c { world = env.sleep poll_interval c.world })

  -- The health check of a running pod with an IP.
  unfoldable pub probe : String → String → Exec (Client W) (Option Ready)
  probe service_name ip =
      attempt
        (do
          status ← send (http_get ("http://" <> service_name <> ":8000/health"))
          pure (if eqb status 200 then some (true, some ip) else none))
        (λ e. if is_http_error e then pure none else raise e)

  unfoldable pub judge : String → Option Pod → Exec (Client W) (Option Ready)
  judge service_name none = pure none
  judge service_name (some pod) =
      if pod.phase == "Running"
      then elim (truthy pod.pod_ip) [ some ip ↦ probe service_name ip | none ↦ pure none ]
      else if pod.phase == "Failed" || pod.phase == "Unknown"
      then pure (some (false, none))
      else pure none

  -- One round of the loop after its test.
  unfoldable pub poll : String → String → Exec (Client W) (Option Ready)
  poll pod_name service_name = do pod ← get_pod pod_name; judge service_name pod

  -- The end of a round, `rest` the rounds that follow.
  unfoldable pub next :
      Exec (Client W) (Option Ready) → Option Ready → Exec (Client W) (Option Ready)
  next rest (some r) = pure (some r)
  next rest none = sleep >> rest

  -- The loop; `none` means that the fuel ran out.
  unfoldable pub wait_loop : ℕ → ℕ → ℕ → String → String → Exec (Client W) (Option Ready)
  wait_loop zero start limit pod_name service_name = pure none
  wait_loop (suc fuel) start limit pod_name service_name =
      let rest = wait_loop fuel start limit pod_name service_name in
      do
        now ← loop_time
        if leb (start + limit) now
            then pure (some (false, none))
            else do verdict ← poll pod_name service_name; next rest verdict

  -- Each round but the last sleeps for half a second, so twice the timeout in seconds, and one
  -- round for the test that ends the loop, are enough.
  unfoldable pub wait_for_pod_ready : String → String → ℕ → Exec (Client W) (Option Ready)
  wait_for_pod_ready pod_name service_name timeout_seconds = do
    start ← loop_time
    wait_loop (2 * timeout_seconds + 1) start (timeout_seconds * 1000000) pod_name service_name
