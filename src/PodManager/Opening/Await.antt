-- ===== src/PodManager/Opening/Await.antt =====
-- What is sent while a call waits for its pod and when the pod does not come up.
use open_terminal_k8s_proxy.Base.{
  ℕ, zero, suc, ◌+◌, refl, String, ◌<>◌, Option, none, some, truthy, Option-cases, inl, inr, false,
  leb, if◌then◌else◌,
}
use open_terminal_k8s_proxy.Base.Exec.{
  Exec, pure, Preserves, preserving, Preserves-bind, Preserves-if, Preserves-attempt,
  Preserves-pure,
}
use open_terminal_k8s_proxy.Kube.{Client, Env, Pod, Request, RetryLaws, http_get}
use open_terminal_k8s_proxy.Kube.Ready.{Ready, probe, judge, poll, next, wait_loop}
use open_terminal_k8s_proxy.Kube.Rules.{
  delete_service-Preserves, delete_pod-Preserves, delete_secret-Preserves, get_pod-Preserves,
}
use open_terminal_k8s_proxy.Models.{TerminalPod}
use open_terminal_k8s_proxy.PodManager.Create.{settle}
use open_terminal_k8s_proxy.Storage.Expiry.{Logged}
use open_terminal_k8s_proxy.PodManager.Opening.Holds.{
  Keeps, WaitRules, ManagerHolds, ManagerHolds-on_client,
}
use open_terminal_k8s_proxy.PodManager.Opening.Kinds.{MayOpen, stable}

module _ {W : Type 0} ⦃env : Env W⦄ (laws : RetryLaws env) (t : TerminalPod) {P : Client W → Type 0}
    {Q : Request → Type 0} (keeps : Keeps env P Q) (rules : WaitRules t Q) where
  open_probe : (ip : String) → Preserves P (probe t.service_name ip)
  unfolding probe
  open_probe ip =
      Preserves-attempt _ _
        (Preserves-bind _ _
          (keeps.stable.sending (http_get ("http://" <> t.service_name <> ":8000/health"))
            rules.checks)
          (λ status. Preserves-pure _))
        (λ e. search preserving)

  open_judge : (pod : Option Pod) → Preserves P (judge t.service_name pod)
  unfolding judge
  open_judge none = search preserving
  open_judge (some pod) = elim (Option-cases (truthy pod.pod_ip)) [
    | inl e ↦ rw (e, judge) (search preserving)
    | inr (ip, e) ↦ rw (e, judge) (search (preserving, open_probe))
  ]

  open_poll : Preserves P (poll t.pod_name t.service_name)
  unfolding poll
  open_poll =
      Preserves-bind _ _ (get_pod-Preserves laws keeps.stable t.pod_name rules.reads) open_judge

  open_next :
      (rest : Exec (Client W) (Option Ready))
      → Preserves P rest
      → (r : Option Ready) → Preserves P (next rest r)
  unfolding next
  open_next rest kept none =
      Preserves-bind _ _ (record { at = λ c h. keeps.moving _ c h }) (λ _. kept)
  open_next rest kept (some r) = search preserving

  pub open_wait_loop :
      (fuel start limit : ℕ) → Preserves P (wait_loop fuel start limit t.pod_name t.service_name)
  unfolding wait_loop
  open_wait_loop zero start limit = search preserving
  open_wait_loop (suc fuel) start limit =
      Preserves-bind _ _ (record { at = λ c h. keeps.moving _ c h })
        λ now.
          Preserves-if (leb (start + limit) now) (pure (some (false, none))) _
            (λ _. Preserves-pure _)
            (λ _. Preserves-bind _ _ open_poll (open_next _ (open_wait_loop fuel start limit)))

module _ {W : Type 0} ⦃env : Env W⦄ (laws : RetryLaws env) (t : TerminalPod) where
  pub open_settle :
      (r : Option Ready) → Preserves (ManagerHolds {W = W} (Logged (MayOpen t))) (settle t r)
  unfolding settle
  open_settle none = search preserving
  open_settle (some (b, ip)) =
      let service = delete_service-Preserves laws (stable laws t) t.service_name (λ ns. refl) in
      let pod = delete_pod-Preserves laws (stable laws t) t.pod_name (λ ns. refl) in
      let secret = delete_secret-Preserves laws (stable laws t) t.secret_name (λ ns. refl) in
      elim (Option-cases (if b then truthy ip else none)) [
        | inl e ↦
            rw (e, settle)
              (Preserves-bind _ _ (ManagerHolds-on_client _ _ service) (λ _.
                Preserves-bind _ _ (ManagerHolds-on_client _ _ pod) (λ _.
                  Preserves-bind _ _ (ManagerHolds-on_client _ _ secret) (λ _. search preserving))))
        | inr (a, e) ↦ rw (e, settle) (search preserving)
      ]
