-- ===== src/PodManager/Opening.antt =====
-- What the manager sends to the cluster when it creates a pod.
pub mod Kinds
pub mod Holds
pub mod Phases
pub mod Order
pub mod Rejected
pub mod Await
pub mod Claims
use open_terminal_k8s_proxy.Base.{
  ℕ, zero, suc, ◌+◌, ◌≡◌, refl, subst, ◌⊎◌, String, ◌<>◌, Option, none, some, [], ◌∷◌, All, truthy,
  Option-cases, inl, inr, not, false, leb, if◌then◌else◌,
}
use open_terminal_k8s_proxy.Base.Dict
use open_terminal_k8s_proxy.Base.Dict.{Dict}
use open_terminal_k8s_proxy.Base.Exec.{
  Result, ok, err, Exec, pure, modify, ◌>>=◌, ◌>>◌, Preserves, preserving, Preserves-bind,
  Preserves-if, Preserves-swallow, Preserves-attempt, Preserves-pure, ok-injective,
}
use open_terminal_k8s_proxy.Codecs.{Codecs}
use open_terminal_k8s_proxy.Config.{Settings, StorageMode, shared_rwo}
use open_terminal_k8s_proxy.Json.{Json, text, member}
use open_terminal_k8s_proxy.Kube.{
  Client, Env, Pod, Request, RetryLaws, load_incluster_config, load_kube_config,
  delete_namespaced_pod, delete_namespaced_service, delete_namespaced_secret, patch_namespaced_pvc,
  read_namespaced_pod, list_namespaced_pod, create_namespaced_pod, read_namespaced_pvc,
  create_namespaced_pvc, create_namespaced_service, create_namespaced_secret, http_get,
}
use open_terminal_k8s_proxy.Kube.Methods
use open_terminal_k8s_proxy.Kube.Ready.{
  Ready, probe, judge, poll, next, wait_loop, wait_for_pod_ready,
}
use open_terminal_k8s_proxy.Kube.Rules.{
  IsStable, delete_service-Preserves, delete_pod-Preserves, delete_secret-Preserves,
  annotate_pvc-Preserves, get_pod-Preserves, get_pvc-Preserves, create_pvc-Preserves,
  create_pod-Preserves, create_service-Preserves, create_secret-Preserves,
  list_terminal_pods-Preserves,
}
use open_terminal_k8s_proxy.Models.{TerminalPod}
use open_terminal_k8s_proxy.PodBuilder.{Manifests, Storage, from_storage, build_pod_for_user}
use open_terminal_k8s_proxy.PodBuilder.Claims.{build_pvc_manifest, build_secret_manifest}
use open_terminal_k8s_proxy.PodBuilder.Pods.{build_pod_manifest}
use open_terminal_k8s_proxy.PodBuilder.Selection.{within}
use open_terminal_k8s_proxy.PodBuilder.Services.{build_service_manifest}
use open_terminal_k8s_proxy.PodBuilder.Shared.{shared_pvc_name}
use open_terminal_k8s_proxy.PodManager.{Manager}
use open_terminal_k8s_proxy.PodManager.Create.{
  prepare_storage, launch, await_pod, settle, land, create_pod_resources, lift,
}
use open_terminal_k8s_proxy.PodManager.Opening.Holds.{
  Keeps, ClaimRules, WaitRules, ManagerHolds, ManagerHolds-on_client,
}
use open_terminal_k8s_proxy.Storage as Storage
use open_terminal_k8s_proxy.Storage.{
  is_shared_mode, is_per_user, ensure_shared_pvc, get_shared_pvc_node, touch_pvc, create_user_pvc,
}
use open_terminal_k8s_proxy.Storage.Expiry.{
  Logged, StorageLogged, Logged-stable, StorageLogged-on_client,
}
use open_terminal_k8s_proxy.PodManager.Opening.Kinds.{
  IsNamed, MayOpen, IsTitled, IsTitled-build_pod_for_user, build_pvc_manifest-IsNamed,
  Preserves-lift, stable, open_clock,
}
use open_terminal_k8s_proxy.PodManager.Opening.Order.{create_pod_resources-Ordered}
use open_terminal_k8s_proxy.PodManager.Opening.Phases.{phases, Ordered}
use open_terminal_k8s_proxy.PodManager.Opening.Await.{open_wait_loop, open_settle}
use open_terminal_k8s_proxy.PodManager.Opening.Claims.{open_storage}

-- The kinds of requests that `MayOpen` allows for the claims and in the wait.
claim_rules : (t : TerminalPod) → ClaimRules t (MayOpen t)
claim_rules t = record {
  reads = λ name ns h. h;
  lists = λ ns selector. tt;
  makes = λ ns m h. h;
  marks = λ name ns d h. h;
}

wait_rules : (t : TerminalPod) → WaitRules t (MayOpen t)
wait_rules t = record { reads = λ ns. refl; checks = refl }

module _ {W : Type 0} ⦃env : Env W⦄ (laws : RetryLaws env) (t : TerminalPod) where
  keeping : Keeps env (Logged (MayOpen t)) (MayOpen t)
  keeping = record { stable = stable laws t; moving = λ w c h. record { log = h.log } }

  open_launch : Preserves (ManagerHolds {W = W} (Logged (MayOpen t))) (launch t)
  unfolding launch
  open_launch =
      Preserves-bind _ _ (ManagerHolds-on_client (Logged (MayOpen t)) _ (open_clock laws t))
        λ start. Preserves-bind _ _ (open_storage laws t keeping (claim_rules t)) λ found.
          Preserves-lift _ _ λ m built.
            let titled = IsTitled-build_pod_for_user env.codecs t env.settings found m built in
            Preserves-bind _ _
              (ManagerHolds-on_client (Logged (MayOpen t)) _
                (create_secret-Preserves laws (stable laws t) m.secret (λ ns. titled.secret)))
              λ _.
                Preserves-bind _ _
                  (ManagerHolds-on_client (Logged (MayOpen t)) _
                    (create_pod-Preserves laws (stable laws t) m.pod (λ ns. titled.pod)))
                  λ _.
                    Preserves-bind _ _
                      (ManagerHolds-on_client (Logged (MayOpen t)) _ (
                        create_service-Preserves laws (stable laws t) m.service
                          (λ ns. titled.service)))
                      λ _. Preserves-pure start

  open_await : Preserves (ManagerHolds {W = W} (Logged (MayOpen t))) (await_pod t)
  unfolding await_pod wait_for_pod_ready
  open_await = ManagerHolds-on_client (Logged (MayOpen t)) _ (
      Preserves-bind _ _ (record { at = λ c h. record { log = h.log } })
        (λ start. open_wait_loop laws t keeping (wait_rules t) _ start _))

  open_land :
      (start : ℕ) (r : Option Ready)
      → Preserves (ManagerHolds {W = W} (Logged (MayOpen t))) (land t start r)
  unfolding land
  open_land start r =
      Preserves-bind _ _ (ManagerHolds-on_client (Logged (MayOpen t)) _ (open_clock laws t)) λ end.
        Preserves-bind _ _
          (unfold modify in (record { at = λ s h. record { storage = h.storage } }))
          (λ _. (open_settle laws t) r)

  opening : Preserves (ManagerHolds {W = W} (Logged (MayOpen t))) (create_pod_resources t)
  unfolding create_pod_resources
  opening = Preserves-bind _ _ open_launch λ start. Preserves-bind _ _ open_await (open_land start)

  only_open :
      (s : Manager W)
      → s.storage.client.sent ≡ []
      → All (MayOpen t) (create_pod_resources t s).1.storage.client.sent
  only_open s none_sent =
      (opening.at s (record {
        storage = record { client = record { log = rw none_sent tt } };
      })).storage.client.log

  -- Under the documented laws of `retry`, the creation of a pod's resources sends nothing but,
  -- beside the client's start: reads of its own pod, of the pods' list, of its own claim and the
  -- shared one; the health check of its own service; the making of secret, pod, service and claim
  -- under its own names, or of the shared claim; the marking of its own claim; and deletions of its
  -- own service, pod and secret. And it sends them in order: all that the claims need before the
  -- secret, the secret before the pod, the pod before the service, these before the first look at
  -- the pod, and the deletions last, of the service, the pod and the secret. This holds whatever the
  -- cluster answers, wherever it raises and however often a request is tried again.
  pub create_pod_resources_lem :
      (s : Manager W)
      → s.storage.client.sent ≡ []
      → All (MayOpen t) (create_pod_resources t s).1.storage.client.sent
        × Ordered 7 (phases (create_pod_resources t s).1.storage.client.sent)
  create_pod_resources_lem s none_sent =
      (only_open s none_sent, create_pod_resources-Ordered laws t s none_sent)
