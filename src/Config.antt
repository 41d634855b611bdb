-- ===== src/Config.antt =====
-- terminal_proxy/config.py: the settings, once they are read. Integer settings are natural
-- numbers; seconds are as in the source.
pub mod Origins
use open_terminal_k8s_proxy.Base.{ℕ, Bool, String, List}
use open_terminal_k8s_proxy.Base.Dict.{Dict}

pub data StorageMode : Type 0 where
  none per_user shared shared_rwo : StorageMode

pub record Settings : Type 0 where
  pub proxy_api_key : String
  pub proxy_host : String
  pub proxy_port : ℕ
  pub namespace : String
  pub terminal_image : String
  pub terminal_image_pull_policy : String
  pub terminal_cpu_request : String
  pub terminal_cpu_limit : String
  pub terminal_memory_request : String
  pub terminal_memory_limit : String
  pub terminal_ephemeral_storage_request : String
  pub terminal_ephemeral_storage_limit : String
  pub terminal_service_port : ℕ
  pub terminal_node_selector : Dict String
  pub terminal_tolerations : List (Dict String)
  pub storage_mode : StorageMode
  pub storage_class_name : String
  pub storage_per_user_size : String
  pub storage_shared_size : String
  pub storage_retain_pvc : Bool
  pub storage_pvc_retention_ttl_seconds : ℕ
  pub max_concurrent_pods : ℕ
  pub pod_idle_timeout_seconds : ℕ
  pub pod_startup_timeout_seconds : ℕ
  pub pod_cleanup_interval_seconds : ℕ
  pub labels_app : String
  pub labels_managed_by : String
  pub cors_allowed_origins : String
  pub log_level : String
