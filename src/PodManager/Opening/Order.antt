-- ===== src/PodManager/Opening/Order.antt =====
-- The order in which the creation of a pod sends its requests.
use open_terminal_k8s_proxy.Base.{
  ℕ, ◌≤◌, ◌≡◌, refl, inl, inr, Option, none, some, [], arith, truthy, Option-cases, if◌then◌else◌,
}
use open_terminal_k8s_proxy.Base.Exec.{
  Result, Exec, modify, ◌>>=◌, Preserves, preserving, Preserves-bind, Preserves-pure,
}
use open_terminal_k8s_proxy.Kube.{Client, Env, RetryLaws}
use open_terminal_k8s_proxy.Kube.Methods.{send}
use open_terminal_k8s_proxy.Kube.Ready.{Ready, wait_for_pod_ready}
use open_terminal_k8s_proxy.Kube.Rules.{
  delete_service-Preserves, delete_pod-Preserves, delete_secret-Preserves, create_pod-Preserves,
  create_service-Preserves, create_secret-Preserves,
}
use open_terminal_k8s_proxy.Models.{TerminalPod}
use open_terminal_k8s_proxy.PodManager.{Manager, on_client}
use open_terminal_k8s_proxy.PodManager.Create.{
  launch, await_pod, settle, land, create_pod_resources, lift,
}
use open_terminal_k8s_proxy.Storage.{utcnow}
use open_terminal_k8s_proxy.PodManager.Opening.Await.{open_wait_loop}
use open_terminal_k8s_proxy.PodManager.Opening.Claims.{open_storage}
use open_terminal_k8s_proxy.PodManager.Opening.Holds.{
  Keeps, ClaimRules, WaitRules, ManagerHolds, ManagerHolds-on_client,
}
use open_terminal_k8s_proxy.PodManager.Opening.Phases.{
  phases, Ordered, Upto, IsOf, Upto-send, Leads, Leads-step, Leads-bind,
}

claim_rules : (t : TerminalPod) → ClaimRules t (IsOf 0)
claim_rules t = record {
  reads = λ name ns h. inr refl;
  lists = λ ns selector. inr refl;
  makes = λ ns m h. inr refl;
  marks = λ name ns d h. inr refl;
}

wait_rules : (t : TerminalPod) → WaitRules t (IsOf 4)
wait_rules t = record { reads = λ ns. inr refl; checks = inr refl }

module _ {W : Type 0} ⦃env : Env W⦄ where
  keeps : (n : ℕ) → Keeps env (Upto n) (IsOf n)
  unfolding send modify
  keeps n = record {
    stable = record {
      sending = λ r q. record { at = λ c h. record { ordered = Upto-send n r c q h } };
      pausing = λ k c h. record { ordered = h.ordered };
      starting = record { at = λ c h. record { ordered = h.ordered } };
      incluster = inl refl;
      kubeconfig = inl refl;
    };
    moving = λ w c h. record { ordered = h.ordered };
  }

  client_step :
      {A : Type 0} {m : Exec (Client W) A} (i k : ℕ)
      → i ≤ k
      → Preserves (Upto k) m
      → Leads i k (on_client m)
  client_step i k le kept = Leads-step i k le (ManagerHolds-on_client (Upto k) _ kept)

  clock_step : (n : ℕ) → Leads {W = W} n n (on_client utcnow)
  clock_step n =
      client_step n n (omega arith) (record { at = λ c h. record { ordered = h.ordered } })

  Leads-lift :
      {A B : Type 0} (n k : ℕ) (r : Result A) (rest : A → Exec (Manager W) B)
      → n ≤ k
      → ((a : A) → Leads n k (rest a))
      → Leads n k (lift r >>= rest)
  Leads-lift n k r rest le goes_on =
      Leads-bind n n k (lift r) rest le (record { at = λ s h. h }) goes_on

module _ {W : Type 0} ⦃env : Env W⦄ (laws : RetryLaws env) (t : TerminalPod) where
  launch-Leads : Leads {W = W} 0 3 (launch t)
  unfolding launch
  launch-Leads = Leads-bind 0 0 3 _ _ (omega arith) (clock_step 0) λ start.
      Leads-bind 0 0 3 _ _ (omega arith)
        (Leads-step 0 0 (omega arith) (open_storage laws t (keeps 0) (claim_rules t)))
        λ found. Leads-lift 0 3 _ _ (omega arith) λ m.
          Leads-bind 0 1 3 _ _ (omega arith)
            (client_step 0 1 (omega arith)
              (create_secret-Preserves laws (keeps 1).stable m.secret (λ ns. inr refl)))
            λ _.
              Leads-bind 1 2 3 _ _ (omega arith)
                (client_step 1 2 (omega arith)
                  (create_pod-Preserves laws (keeps 2).stable m.pod (λ ns. inr refl)))
                λ _.
                  Leads-bind 2 3 3 _ _ (omega arith)
                    (client_step 2 3 (omega arith)
                      (create_service-Preserves laws (keeps 3).stable m.service (λ ns. inr refl)))
                    λ _. Leads-step 3 3 (omega arith) (Preserves-pure start)

  await_pod-Leads : Leads {W = W} 3 4 (await_pod t)
  unfolding await_pod wait_for_pod_ready
  await_pod-Leads = client_step 3 4 (omega arith) (
      Preserves-bind _ _ (record { at = λ c h. record { ordered = h.ordered } })
        (λ start. open_wait_loop laws t (keeps 4) (wait_rules t) _ start _))

  settle-Leads : (r : Option Ready) → Leads {W = W} 4 7 (settle t r)
  unfolding settle
  settle-Leads none = Leads-step 4 7 (omega arith) (search preserving)
  settle-Leads (some (b, ip)) = elim (Option-cases (if b then truthy ip else none)) [
    | inl e ↦
        rw (e, settle)
          (Leads-bind 4 5 7 _ _ (omega arith)
            (client_step 4 5 (omega arith)
              (delete_service-Preserves laws (keeps 5).stable t.service_name (λ ns. inr refl)))
            λ _.
              Leads-bind 5 6 7 _ _ (omega arith)
                (client_step 5 6 (omega arith)
                  (delete_pod-Preserves laws (keeps 6).stable t.pod_name (λ ns. inr refl)))
                λ _.
                  Leads-bind 6 7 7 _ _ (omega arith)
                    (client_step 6 7 (omega arith) (
                      delete_secret-Preserves laws (keeps 7).stable t.secret_name (λ ns. inr refl)))
                    λ _. Leads-step 7 7 (omega arith) (search preserving))
    | inr (a, e) ↦ rw (e, settle) (Leads-step 4 7 (omega arith) (search preserving))
  ]

  land-Leads : (start : ℕ) (r : Option Ready) → Leads {W = W} 4 7 (land t start r)
  unfolding land modify
  land-Leads start r = Leads-bind 4 4 7 _ _ (omega arith) (clock_step 4) λ end.
      Leads-bind 4 4 7 _ _ (omega arith)
        (Leads-step 4 4 (omega arith) (record { at = λ s h. record { storage = h.storage } }))
        λ _. settle-Leads r

  -- A pod's claims are asked for first, then come its secret, the pod and its service, then the
  -- wait, and if it fails the deletion of service, pod and secret.
  pub create_pod_resources-Ordered :
      (s : Manager W)
      → s.storage.client.sent ≡ []
      → Ordered 7 (phases (create_pod_resources t s).1.storage.client.sent)
  unfolding create_pod_resources
  create_pod_resources-Ordered s none_sent =
      let whole = Leads-bind 0 3 7 (launch t) _ (omega arith) launch-Leads λ start.
        Leads-bind 3 4 7 (await_pod t) _ (omega arith) await_pod-Leads (land-Leads start) in
      let begun : ManagerHolds (Upto 0) s = record {
        storage = record { client = record { ordered = rw none_sent tt } };
      } in
      (whole.at s begun).storage.client.ordered
