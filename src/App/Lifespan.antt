-- ===== src/App/Lifespan.antt =====
-- The start of the application: `get_or_create_proxy_api_key` and the first part of
-- `lifespan` of terminal_proxy/main.py, without the logging.
use open_terminal_k8s_proxy.Base.{String, ◌==◌, none, if◌then◌else◌}
use open_terminal_k8s_proxy.Base.Exec.{Exec, pure, modify, swallow, ◌>>◌}
use open_terminal_k8s_proxy.App.{App, on_manager}
use open_terminal_k8s_proxy.Kube.{Client, Env}
use open_terminal_k8s_proxy.Kube.Methods.{init}
use open_terminal_k8s_proxy.PodManager.{on_client, on_storage}
use open_terminal_k8s_proxy.PodManager.History.{start}
use open_terminal_k8s_proxy.PodManager.Methods.{generate_api_key}
use open_terminal_k8s_proxy.Storage.{is_shared_mode, ensure_shared_pvc}

module _ {W : Type 0} ⦃env : Env W⦄ where
  -- `PROXY_API_KEY`
  unfoldable pub get_or_create_proxy_api_key : Exec (Client W) String
  get_or_create_proxy_api_key =
      if env.settings.proxy_api_key == "" then generate_api_key else pure env.settings.proxy_api_key

  -- Up to the `yield`.
  unfoldable pub startup : Exec (App W) Unit
  startup = do
    swallow (on_manager (on_client init))
    swallow (
        on_manager (
          if is_shared_mode env.settings.storage_mode
          then on_storage ensure_shared_pvc
          else pure none))
    on_manager (modify start)
