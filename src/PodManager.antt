-- ===== src/PodManager.antt =====
-- terminal_proxy/pod_manager.py: `PodManager`. Between two waits of the event loop a method runs
-- alone, so each of the methods here is one action. `get_or_create` holds the manager's lock;
-- Tasks parts it where it waits for its pod.
pub mod Create
pub mod Methods
pub mod Quiet
pub mod Removal
pub mod Requests
pub mod Opening
pub mod History
pub mod Upkeep
pub mod Tracking
pub mod Spec
pub mod Creation
pub mod Restart
pub mod Tasks
pub mod Fewer
pub mod Entering
pub mod Interleaving
pub mod Calm
pub mod Background
use open_terminal_k8s_proxy.Base.{ℕ, Bool, true, false, String}
use open_terminal_k8s_proxy.Base.Dict.{Dict}
use open_terminal_k8s_proxy.Base.Exec.{Exec, on, swallow}
use open_terminal_k8s_proxy.Kube.{Client, Env}
use open_terminal_k8s_proxy.Models.{TerminalPod, PodState, running}
use open_terminal_k8s_proxy.Storage.{Storage}

-- The manager's state, with the storage manager and the startup metrics that it writes to.
pub record Manager (W : Type 0) : Type 0 where
  pub storage : Storage W
  pub pods : Dict TerminalPod
  pub startup_durations : Dict ℕ

abbrev pub is_running : PodState → Bool
is_running running = true
is_running _ = false

module _ {W : Type 0} where
  abbrev pub on_storage : {A : Type 0} → Exec (Storage W) A → Exec (Manager W) A
  on_storage m = on (λ s. s.storage) (λ t s. record s { storage = t }) m

  abbrev pub on_client : {A : Type 0} → Exec (Client W) A → Exec (Manager W) A
  on_client m =
      on (λ s. s.storage.client) (λ c s. record s { storage = record s.storage { client = c } }) m
