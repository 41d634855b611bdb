-- ===== src/Kube/Retry/Rejected.antt =====
-- A request that the API server rejects every time.
use open_terminal_k8s_proxy.Base.{ℕ, suc, ◌≡◌, refl, true, String, ◌∷◌, arith}
use open_terminal_k8s_proxy.Base.Exec.{api_exception, err, Exec, ◌>>=◌}
use open_terminal_k8s_proxy.Json.{Json}
use open_terminal_k8s_proxy.Kube.{Client, Env, Request, RetryLaws, create_namespaced_pod}
use open_terminal_k8s_proxy.Kube.Methods.{send, core_v1, namespace, create_pod, has_retryable_type}
use open_terminal_k8s_proxy.Kube.Retry.{tries, paused, retried-tries}

module _ {W : Type 0} ⦃env : Env W⦄ where
  again :
      (m : Exec (Client W) Unit) (left n status : ℕ) (c d : Client W)
      → m c ≡ (err (api_exception status), d)
      → tries (suc left) n m c ≡ tries left (suc n) m (paused n d)
  unfolding tries has_retryable_type
  again m left n status c d e = ground (arith, e)

  -- A request that fails with `status` each time, and does so three times.
  failing :
      (m : Exec (Client W) Unit) (r : Request) (status : ℕ) (ns : String)
      → ((d : Client W)
          → d.initialized ≡ true
          → d.namespace ≡ ns
          → (w : W) × (m d
              ≡ (err (api_exception status), record d { world = w; sent = r ∷ d.sent })))
      → (c : Client W) → c.initialized ≡ true
      → c.namespace ≡ ns
      → ((tries 2 1 m c).0 ≡ err (api_exception status))
        × ((tries 2 1 m c).1.sent ≡ r ∷ r ∷ r ∷ c.sent)
  unfolding tries has_retryable_type
  failing m r status ns each c ready same =
      let (w1, e1) = each c ready same in
      let c1 = paused 1 (record c { world = w1; sent = r ∷ c.sent }) in
      let (w2, e2) = each c1 ready same in
      let c2 = paused 2 (record c1 { world = w2; sent = r ∷ c1.sent }) in
      let (w3, e3) = each c2 ready same in
      rw (again m 1 1 status c _ e1) (rw (again m 0 2 status c1 _ e2) (rw (e3, tries) (refl, refl)))

  once :
      (manifest : Json) (status : ℕ) (ns : String)
      → ((w : W)
          → (env.answer (create_namespaced_pod ns manifest) w).0 ≡ err (api_exception status))
      → (c : Client W) → c.initialized ≡ true
      → c.namespace ≡ ns
      → (w : W) × ((core_v1 >>= λ _. namespace >>= λ k. send (create_namespaced_pod k manifest)) c
          ≡ (
            err (api_exception status),
            record c { world = w; sent = create_namespaced_pod ns manifest ∷ c.sent },
          ))
  unfolding core_v1 send ◌>>=◌
  once manifest status ns rejects c ready same = (
    (env.answer (create_namespaced_pod ns manifest) c.world).1,
    ground (arith, ready, same, rejects c.world),
  )

  -- Under the documented laws of `retry`, if the API server rejects the creation of a pod each time,
  -- an initialized client raises the server's error after three requests, whatever the status.
  pub create_pod-rejected :
      (laws : RetryLaws env) (manifest : Json) (status : ℕ) (c : Client W)
      → ((w : W)
          → (env.answer (create_namespaced_pod c.namespace manifest) w).0
            ≡ err (api_exception status))
      → c.initialized ≡ true
      → let r = create_namespaced_pod c.namespace manifest in
        ((create_pod manifest c).0 ≡ err (api_exception status))
        × ((create_pod manifest c).1.sent ≡ r ∷ r ∷ r ∷ c.sent)
  unfolding create_pod
  create_pod-rejected laws manifest status c rejects ready =
      let m : Exec (Client W) (Unit {0}) =
        core_v1 >>= λ _. namespace >>= λ k. send (create_namespaced_pod k manifest) in
      rw (retried-tries laws m c) (
        failing m (create_namespaced_pod c.namespace manifest) status c.namespace
          (once manifest status c.namespace rejects) c ready refl)
