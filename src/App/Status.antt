-- ===== src/App/Status.antt =====
-- The endpoints of terminal_proxy/main.py that tell of the proxy itself.
use open_terminal_k8s_proxy.Base.{ℕ, Bool, true, false, String, not, if◌then◌else◌}
use open_terminal_k8s_proxy.Base.Exec.{Exec, pure, gets, modify, attempt, ◌>>=◌, ◌>>◌}
use open_terminal_k8s_proxy.Access.{verify_api_key}
use open_terminal_k8s_proxy.App.{App, WebRequest, on_manager}
use open_terminal_k8s_proxy.App.Routes.{depend}
use open_terminal_k8s_proxy.Config.{StorageMode, per_user, shared, shared_rwo}
use open_terminal_k8s_proxy.Kube.{Client, Env, list_some_pods}
use open_terminal_k8s_proxy.Kube.Methods.{core_v1, namespace, send}
use open_terminal_k8s_proxy.Metrics.{update_pod_states}
use open_terminal_k8s_proxy.Metrics.Prometheus.{format_prometheus_metrics}
use open_terminal_k8s_proxy.PodManager.{on_client}
use open_terminal_k8s_proxy.PodManager.Methods.{Stats, get_stats}

-- The values of `StorageMode`.
abbrev pub mode_value : StorageMode → String
mode_value StorageMode.none = "none"
mode_value per_user = "perUser"
mode_value shared = "shared"
mode_value shared_rwo = "sharedRWO"

-- The answers of the health check; `disconnected` is a 503.
pub data HealthReport : Type 0 where
  not_initialized : HealthReport
  -- `active_pods` and `max_pods`
  disconnected : ℕ → ℕ → HealthReport
  -- and `storage_mode`
  connected : ℕ → ℕ → String → HealthReport

-- The features of `get_config`.
pub record Features : Type 0 where
  pub terminal : Bool
  pub notebooks : Bool

module _ {W : Type 0} ⦃env : Env W⦄ where
  -- The request of the health check, and whether it succeeded.
  unfoldable pub reaches_cluster : Exec (Client W) Bool
  reaches_cluster =
      attempt (do core_v1; ns ← namespace; send (list_some_pods ns 1); pure true) (λ _. pure false)

  unfoldable pub refresh : Exec (App W) Unit
  refresh = modify λ s. record s { metrics = update_pod_states s.manager.pods s.metrics }

  unfoldable pub health : Exec (App W) HealthReport
  health = do
    initialized ← gets (λ s. s.manager.storage.client.initialized)
    if not initialized then pure not_initialized else (do
      k8s_healthy ← on_manager (on_client reaches_cluster)
      stats ← on_manager get_stats
      refresh
      pure (
          if k8s_healthy
          then connected stats.active_pods stats.max_pods (mode_value env.settings.storage_mode)
          else disconnected stats.active_pods stats.max_pods))

  unfoldable pub metrics : Exec (App W) String
  metrics = do
    stats ← on_manager get_stats
    refresh
    gets (λ s.
        format_prometheus_metrics stats.active_pods stats.max_pods
          (mode_value env.settings.storage_mode) s.metrics s.manager.startup_durations)

  unfoldable pub get_config : String → WebRequest → Exec (App W) Features
  get_config proxy_api_key request = do
    _ ← depend (verify_api_key proxy_api_key request.credentials)
    pure (record { terminal = true; notebooks = true })

  unfoldable pub get_status : String → WebRequest → Exec (App W) Stats
  get_status proxy_api_key request = do
    _ ← depend (verify_api_key proxy_api_key request.credentials)
    on_manager get_stats
