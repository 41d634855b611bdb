-- ===== src/PodManager/Create.antt =====
-- `get_or_create` and the creation of a pod's resources.
use open_terminal_k8s_proxy.Base.{
  ℕ, ◌-◌, false, String, not, Option, none, some, length, leb, truthy, if◌then◌else◌,
}
use open_terminal_k8s_proxy.Base.Dict
use open_terminal_k8s_proxy.Base.Exec.{
  runtime_error, other_error, Result, Exec, pure, raise, gets, modify, ◌>>=◌, ◌>>◌,
}
use open_terminal_k8s_proxy.Config.{StorageMode}
use open_terminal_k8s_proxy.Kube.{Env}
use open_terminal_k8s_proxy.Kube.Methods
use open_terminal_k8s_proxy.Kube.Ready.{Ready, wait_for_pod_ready}
use open_terminal_k8s_proxy.Metrics.{record_pod_startup}
use open_terminal_k8s_proxy.Models.{TerminalPod, running, create}
use open_terminal_k8s_proxy.PodBuilder.{build_pod_for_user}
use open_terminal_k8s_proxy.PodManager.{Manager, is_running, on_storage, on_client}
use open_terminal_k8s_proxy.PodManager.Methods.{put_pod, drop_pod, evict_oldest, generate_api_key}
use open_terminal_k8s_proxy.Storage.{
  is_per_user, is_shared_mode, utcnow, touch_pvc, delete_user_pvc, create_user_pvc,
  ensure_shared_pvc, get_shared_pvc_node,
}

abbrev pub without_claim : StorageMode → TerminalPod → TerminalPod
without_claim StorageMode.none t = record t { pvc_name = none }
without_claim _ t = t

-- A result of a function that may raise.
abbrev pub lift : {W A : Type 0} → Result A → Exec (Manager W) A
lift r s = (r, s)

module _ {W : Type 0} ⦃env : Env W⦄ where
  -- The claims that the pod needs.
  unfoldable pub prepare_storage : TerminalPod → Exec (Manager W) (Option String)
  prepare_storage t =
      let mode = env.settings.storage_mode in
      do
        if is_shared_mode mode then on_storage ensure_shared_pvc else pure none
        shared_pvc_node ← on_storage get_shared_pvc_node
        elim (truthy t.pvc_name) [
          | none ↦ pure false
          | some pvc_name ↦
              if is_per_user mode
              then on_storage (create_user_pvc pvc_name t.user_hash)
              else pure false
        ]
        pure shared_pvc_node

  -- The wait's `none` stands for fuel that ran out.
  unfoldable pub settle : TerminalPod → Option Ready → Exec (Manager W) TerminalPod
  settle t none = raise other_error
  settle t (some (ready, ip)) = elim (if ready then truthy ip else none) [
    | some address ↦ pure (record t { state = running; pod_ip = ip })
    | none ↦ do
      on_client (Methods.delete_service t.service_name)
      on_client (Methods.delete_pod t.pod_name)
      on_client (Methods.delete_secret t.secret_name)
      raise runtime_error
  ]

  -- The creation up to the wait: the time at which it began.
  unfoldable pub launch : TerminalPod → Exec (Manager W) ℕ
  launch t = do
    start ← on_client utcnow
    shared_pvc_node ← prepare_storage t
    manifests ← lift (build_pod_for_user env.codecs t env.settings shared_pvc_node)
    on_client (Methods.create_secret manifests.secret)
    on_client (Methods.create_pod manifests.pod)
    on_client (Methods.create_service manifests.service)
    pure start

  -- The wait, in which other tasks may run.
  unfoldable pub await_pod : TerminalPod → Exec (Manager W) (Option Ready)
  await_pod t =
      on_client
        (wait_for_pod_ready t.pod_name t.service_name env.settings.pod_startup_timeout_seconds)

  -- And what comes after it.
  unfoldable pub land : TerminalPod → ℕ → Option Ready → Exec (Manager W) TerminalPod
  land t start ready = do
    end ← on_client utcnow
    modify (λ s. record s {
      startup_durations = record_pod_startup t.user_hash (end - start) s.startup_durations;
    })
    settle t ready

  -- The pod as the method leaves it. When it raises, the pod is in nobody's hands.
  unfoldable pub create_pod_resources : TerminalPod → Exec (Manager W) TerminalPod
  create_pod_resources t = do start ← launch t; ready ← await_pod t; land t start ready

  -- A pod that runs is used again.
  unfoldable pub reuse : String → TerminalPod → Exec (Manager W) TerminalPod
  reuse user_hash t = do
    now ← on_client utcnow
    let t' = record t { last_active_at = now }
    put_pod user_hash t'
    elim (truthy t.pvc_name) [ none ↦ pure tt | some pvc_name ↦ on_storage (touch_pvc pvc_name) ]
    pure t'

  -- A pod that does not run makes way for a new one.
  unfoldable pub discard : String → TerminalPod → Exec (Manager W) Unit
  discard user_hash t = do
    elim (truthy t.pvc_name) [
      | none ↦ pure tt
      | some pvc_name ↦
          if not env.settings.storage_retain_pvc
          then on_storage (delete_user_pvc pvc_name)
          else on_storage (touch_pvc pvc_name)
    ]
    on_client (Methods.delete_pod t.pod_name)
    drop_pod user_hash

  unfoldable pub make_room : Exec (Manager W) Unit
  make_room = do
    count ← gets (λ s. length s.pods)
    if leb env.settings.max_concurrent_pods count then evict_oldest else pure tt

  -- A new pod, whose resources are still to be made.
  unfoldable pub new_pod : String → Exec (Manager W) TerminalPod
  new_pod user_id = do
    api_key ← on_client generate_api_key
    now ← on_client utcnow
    pure (without_claim env.settings.storage_mode (create env.codecs now user_id api_key))

  -- A new pod with its resources, which is not tracked yet.
  unfoldable pub fresh : String → Exec (Manager W) TerminalPod
  fresh user_id = do t ← new_pod user_id; create_pod_resources t

  unfoldable pub build : String → String → Exec (Manager W) TerminalPod
  build user_id user_hash = do t ← fresh user_id; put_pod user_hash t; pure t

  unfoldable pub make : String → String → Exec (Manager W) TerminalPod
  make user_id user_hash = make_room >> build user_id user_hash

  unfoldable pub get_or_create : String → Exec (Manager W) TerminalPod
  get_or_create user_id = do
    now ← on_client utcnow
    let user_hash = (create env.codecs now user_id "").user_hash
    found ← gets (λ s. Dict.get user_hash s.pods)
    elim found [
      | none ↦ make user_id user_hash
      | some t ↦
          if is_running t.state
          then reuse user_hash t
          else do discard user_hash t; make user_id user_hash
    ]
