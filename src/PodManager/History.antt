-- ===== src/PodManager/History.antt =====
-- The manager over any sequence of calls: requests of users and rounds of the three background
-- loops, each of which logs what its body raises.
use open_terminal_k8s_proxy.Base.{◌≡◌, String, List, [], ◌∷◌, arith}
use open_terminal_k8s_proxy.Base.Exec.{Exec, swallow, Preserves, Preserves-swallow}
use open_terminal_k8s_proxy.Kube.{Env}
use open_terminal_k8s_proxy.PodManager.{Manager}
use open_terminal_k8s_proxy.PodManager.Create.{get_or_create}
use open_terminal_k8s_proxy.PodManager.Methods.{
  cleanup_idle_pods, check_pod_health, pvc_cleanup, reconcile_existing_pods,
}
use open_terminal_k8s_proxy.PodManager.Spec.{IsSound}
use open_terminal_k8s_proxy.PodManager.Tracking.{get_or_create-IsSound}
use open_terminal_k8s_proxy.PodManager.Upkeep.{
  IsSound-check_pod_health, IsSound-cleanup_idle_pods, IsSound-pvc_cleanup,
  IsSound-reconcile_existing_pods,
}

pub data Task : Type 0 where
  request : String → Task
  cleanup health pvcs : Task

module _ {W : Type 0} ⦃env : Env W⦄ where
  unfoldable pub perform : Task → Exec (Manager W) Unit
  perform (request user_id) = swallow (get_or_create user_id)
  perform cleanup = swallow cleanup_idle_pods
  perform health = swallow check_pod_health
  perform pvcs = swallow pvc_cleanup

  unfoldable pub perform_all : List Task → Manager W → Manager W
  perform_all [] s = s
  perform_all (t ∷ ts) s = perform_all ts (perform t s).1

  -- `start` without the tasks, which are the later elements of the sequence.
  unfoldable pub start : Manager W → Manager W
  start s = (reconcile_existing_pods s).1

  pub IsSound-perform : (t : Task) → Preserves {S = Manager W} IsSound (perform t)
  unfolding perform
  IsSound-perform (request user_id) =
      Preserves-swallow _ (record { at = get_or_create-IsSound user_id })
  IsSound-perform cleanup = Preserves-swallow _ IsSound-cleanup_idle_pods
  IsSound-perform health = Preserves-swallow _ IsSound-check_pod_health
  IsSound-perform pvcs = Preserves-swallow _ IsSound-pvc_cleanup

  IsSound-perform_all : (ts : List Task) (s : Manager W) → IsSound s → IsSound (perform_all ts s)
  unfolding perform_all
  IsSound-perform_all [] s v = v
  IsSound-perform_all (t ∷ ts) s v =
      IsSound-perform_all ts (perform t s).1 ((IsSound-perform t).at s v)

  -- After the start with nothing tracked and any sequence of requests and background rounds,
  -- whatever the cluster answers, no key is tracked twice, and each tracked pod is running and has
  -- the hash, service and secret names of its key.
  pub run-IsSound :
      (ts : List Task) (s : Manager W) → s.pods ≡ [] → IsSound (perform_all ts (start s))
  unfolding start
  run-IsSound ts s p = IsSound-perform_all ts _ (
      IsSound-reconcile_existing_pods.at s
        (record { distinct = ground (arith, p); own = ground (arith, p) }))
