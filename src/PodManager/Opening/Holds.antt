-- ===== src/PodManager/Opening/Holds.antt =====
-- A property of the client's state, as one of the storage manager and of the pod manager.
use open_terminal_k8s_proxy.Base.{◌≡◌, ◌⊎◌, String, ◌<>◌, some}
use open_terminal_k8s_proxy.Base.Dict.{Dict}
use open_terminal_k8s_proxy.Base.Exec.{Exec, on, Preserves}
use open_terminal_k8s_proxy.Json.{Json}
use open_terminal_k8s_proxy.Kube.{
  Client, Env, Request, read_namespaced_pod, list_namespaced_pod, read_namespaced_pvc,
  create_namespaced_pvc, patch_namespaced_pvc, http_get,
}
use open_terminal_k8s_proxy.Kube.Rules.{IsStable}
use open_terminal_k8s_proxy.Models.{TerminalPod}
use open_terminal_k8s_proxy.PodBuilder.Shared.{shared_pvc_name}
use open_terminal_k8s_proxy.PodManager.{Manager, on_storage, on_client}
use open_terminal_k8s_proxy.PodManager.Opening.Kinds.{IsNamed}
use open_terminal_k8s_proxy.Storage as Storage
use open_terminal_k8s_proxy.Storage.{Storage}

pub record StorageHolds {W : Type 0} (P : Client W → Type 0) (s : Storage W) : Type 0 where
  pub client : P s.client

pub record ManagerHolds {W : Type 0} (P : Client W → Type 0) (s : Manager W) : Type 0 where
  pub storage : StorageHolds P s.storage

module _ {W : Type 0} ⦃env : Env W⦄ (P : Client W → Type 0) where
  pub StorageHolds-on_client :
      {A : Type 0} (m : Exec (Client W) A)
      → Preserves P m
      → Preserves (StorageHolds P) (Storage.on_client m)
  unfolding on
  StorageHolds-on_client m kept = record {
    at = λ s h. record { client = kept.at s.client h.client };
  }

  pub ManagerHolds-on_storage :
      {A : Type 0} (m : Exec (Storage W) A)
      → Preserves (StorageHolds P) m
      → Preserves (ManagerHolds P) (on_storage m)
  unfolding on
  ManagerHolds-on_storage m kept = record {
    at = λ s h. record { storage = kept.at s.storage h.storage };
  }

  pub ManagerHolds-on_client :
      {A : Type 0} (m : Exec (Client W) A)
      → Preserves P m
      → Preserves (ManagerHolds P) (on_client m)
  unfolding on
  ManagerHolds-on_client m kept = record {
    at = λ s h. record { storage = record { client = kept.at s.storage.client h.storage.client } };
  }

-- The property is kept by every request of a kind, and by what happens between requests.
pub record Keeps {W : Type 0} (env : Env W) (P : Client W → Type 0) (Q : Request → Type 0)
    : Type 0 where
  pub stable : IsStable env P Q
  pub moving : (w : W) (c : Client W) → P c → P (record c { world = w })

-- The requests for the claims of a pod are of the kind.
pub record ClaimRules (t : TerminalPod) (Q : Request → Type 0) : Type 0 where
  pub reads :
      (name ns : String)
      → (name ≡ shared_pvc_name) ⊎ (t.pvc_name ≡ some name)
      → Q (read_namespaced_pvc name ns)
  pub lists : (ns selector : String) → Q (list_namespaced_pod ns selector)
  pub makes :
      (ns : String) (m : Json)
      → IsNamed shared_pvc_name m ⊎ ((name : String) × (t.pvc_name ≡ some name) × IsNamed name m)
      → Q (create_namespaced_pvc ns m)
  pub marks :
      (name ns : String) (d : Dict String)
      → t.pvc_name ≡ some name
      → Q (patch_namespaced_pvc name ns d)

-- Those of the wait are.
pub record WaitRules (t : TerminalPod) (Q : Request → Type 0) : Type 0 where
  pub reads : (ns : String) → Q (read_namespaced_pod t.pod_name ns)
  pub checks : Q (http_get ("http://" <> t.service_name <> ":8000/health"))
