-- ===== src/Kube/Methods.antt =====
-- The methods of `K8sClient`, without `wait_for_pod_ready`.
use open_terminal_k8s_proxy.Base.{
  Bool, true, false, String, ◌<>◌, ◌==◌, Option, none, some, List, [], ◌∷◌, ◌||◌, eqb,
  if◌then◌else◌, any,
}
use open_terminal_k8s_proxy.Base.Dict.{Dict}
use open_terminal_k8s_proxy.Base.Exec.{
  Exn, api_exception, connection_error, timeout_error, config_exception, runtime_error, Exec, pure,
  raise, gets, modify, attempt, ◌>>=◌, ◌>>◌,
}
use open_terminal_k8s_proxy.Json.{Json}
use open_terminal_k8s_proxy.Kube.{
  Client, Env, Pod, Pvc, Secret, Request, Reply, RetryPolicy, load_incluster_config,
  load_kube_config, read_namespaced_pod, list_namespaced_pod, create_namespaced_pod,
  delete_namespaced_pod, read_namespaced_pvc, create_namespaced_pvc, delete_namespaced_pvc,
  list_namespaced_pvc, patch_namespaced_pvc, create_namespaced_service, delete_namespaced_service,
  read_namespaced_secret, create_namespaced_secret, delete_namespaced_secret,
}

-- `is_retryable_exception`
unfoldable pub is_retryable_exception : Exn → Bool
is_retryable_exception (api_exception s) = any (eqb s) (429 ∷ 500 ∷ 502 ∷ 503 ∷ 504 ∷ [])
is_retryable_exception connection_error = true
is_retryable_exception timeout_error = true
is_retryable_exception _ = false

-- `retry_if_exception_type(RETRYABLE_EXCEPTIONS)`
unfoldable pub has_retryable_type : Exn → Bool
has_retryable_type (api_exception s) = true
has_retryable_type connection_error = true
has_retryable_type timeout_error = true
has_retryable_type _ = false

abbrev pub policy : RetryPolicy
policy = record { stop_after_attempt = 3; retry_if = has_retryable_type }

-- The names of the two exceptions that a handler looks for.
unfoldable pub is_not_found : Exn → Bool
is_not_found (api_exception s) = eqb s 404
is_not_found _ = false

unfoldable pub is_config_exception : Exn → Bool
is_config_exception config_exception = true
is_config_exception _ = false

-- The inner loop of `get_shared_pvc_node`: whether a volume has the claim.
unfoldable pub mounts : String → List (Option String) → Bool
mounts pvc_name [] = false
mounts pvc_name (none ∷ claims) = mounts pvc_name claims
mounts pvc_name (some claim ∷ claims) = claim == pvc_name || mounts pvc_name claims

unfoldable pub node_of : String → List Pod → Option String
node_of pvc_name [] = none
node_of pvc_name (pod ∷ pods) =
    if mounts pvc_name pod.claims then pod.node_name else node_of pvc_name pods

module _ {W : Type 0} ⦃env : Env W⦄ where
  -- One request to the world.
  unfoldable pub send : (r : Request) → Exec (Client W) (Reply r)
  send r c =
      let (reply, w) = env.answer r c.world in (reply, record c { world = w; sent = r ∷ c.sent })

  -- `except ApiException as e: if e.status == 404: return a; raise`
  unfoldable pub or_missing : {A : Type 0} → A → Exec (Client W) A → Exec (Client W) A
  unfolding attempt
  or_missing a m = attempt m (λ e. if is_not_found e then pure a else raise e)

  -- The decorator that every request method has.
  unfoldable pub retried : {A : Type 0} → Exec (Client W) A → Exec (Client W) A
  retried {A} m = env.retry A policy 1 m

  unfoldable pub load_kubeconfig : Exec (Client W) Unit
  load_kubeconfig =
      attempt (send load_kube_config)
        (λ e. if is_config_exception e then raise runtime_error else raise e)

  unfoldable pub load_config : Exec (Client W) Unit
  load_config =
      attempt (send load_incluster_config)
        (λ e. if is_config_exception e then load_kubeconfig else raise e)

  -- `init`: the in-cluster configuration, else the kubeconfig, else `RuntimeError`.
  unfoldable pub init : Exec (Client W) Unit
  init = do
    done ← gets (λ c. c.initialized)
    if done then pure tt else do load_config; modify (λ c. record c { initialized = true })

  -- The property `core_v1`: it initializes the client if that was not done.
  unfoldable pub core_v1 : Exec (Client W) Unit
  core_v1 = do done ← gets (λ c. c.initialized); if done then pure tt else init

  abbrev pub namespace : Exec (Client W) String
  namespace = gets (λ c. c.namespace)

  unfoldable pub get_pod : String → Exec (Client W) (Option Pod)
  get_pod pod_name = retried (
      or_missing none
        (do core_v1; ns ← namespace; pod ← send (read_namespaced_pod pod_name ns); pure (some pod)))

  unfoldable pub list_terminal_pods : Exec (Client W) (List Pod)
  list_terminal_pods = retried (do
    core_v1
    ns ← namespace
    let cfg = env.settings
    send (
        list_namespaced_pod ns
          ("app=" <> cfg.labels_app <> ",managed-by=" <> cfg.labels_managed_by)))

  unfoldable pub create_pod : Json → Exec (Client W) Unit
  create_pod manifest =
      retried (do core_v1; ns ← namespace; send (create_namespaced_pod ns manifest))

  -- No caller gives `grace_period_seconds`.
  unfoldable pub delete_pod : String → Exec (Client W) Unit
  delete_pod pod_name =
      retried
        (or_missing tt (do core_v1; ns ← namespace; send (delete_namespaced_pod pod_name ns 30)))

  unfoldable pub get_pvc : String → Exec (Client W) (Option Pvc)
  get_pvc pvc_name = retried (
      or_missing none
        (do core_v1; ns ← namespace; pvc ← send (read_namespaced_pvc pvc_name ns); pure (some pvc)))

  unfoldable pub create_pvc : Json → Exec (Client W) Unit
  create_pvc manifest =
      retried (do core_v1; ns ← namespace; send (create_namespaced_pvc ns manifest))

  unfoldable pub delete_pvc : String → Exec (Client W) Unit
  delete_pvc pvc_name =
      retried (or_missing tt (do core_v1; ns ← namespace; send (delete_namespaced_pvc pvc_name ns)))

  unfoldable pub list_user_pvcs : Exec (Client W) (List Pvc)
  list_user_pvcs = retried (do
    core_v1
    ns ← namespace
    let cfg = env.settings
    send (
        list_namespaced_pvc ns
          ("app=" <> cfg.labels_app <> ",managed-by=" <> cfg.labels_managed_by <> ",type=user")))

  unfoldable pub annotate_pvc : String → Dict String → Exec (Client W) Unit
  annotate_pvc pvc_name annotations =
      retried (do core_v1; ns ← namespace; send (patch_namespaced_pvc pvc_name ns annotations))

  unfoldable pub create_service : Json → Exec (Client W) Unit
  create_service manifest =
      retried (do core_v1; ns ← namespace; send (create_namespaced_service ns manifest))

  unfoldable pub delete_service : String → Exec (Client W) Unit
  delete_service service_name =
      retried (
        or_missing tt
          (do core_v1; ns ← namespace; send (delete_namespaced_service service_name ns)))

  unfoldable pub get_secret : String → Exec (Client W) (Option Secret)
  get_secret secret_name = retried (
      or_missing none (do
        core_v1
        ns ← namespace
        secret ← send (read_namespaced_secret secret_name ns)
        pure (some secret)))

  unfoldable pub create_secret : Json → Exec (Client W) Unit
  create_secret manifest =
      retried (do core_v1; ns ← namespace; send (create_namespaced_secret ns manifest))

  unfoldable pub delete_secret : String → Exec (Client W) Unit
  delete_secret secret_name =
      retried
        (or_missing tt (do core_v1; ns ← namespace; send (delete_namespaced_secret secret_name ns)))

  unfoldable pub get_shared_pvc_node : String → Exec (Client W) (Option String)
  get_shared_pvc_node pvc_name = do pods ← list_terminal_pods; pure (node_of pvc_name pods)
