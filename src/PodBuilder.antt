-- ===== src/PodBuilder.antt =====
-- terminal_proxy/k8s/pod_builder.py: all manifests of a user's claim, secret, pod and service.
pub mod Selection
pub mod Wiring
pub mod Places
pub mod Shared
pub mod Claims
pub mod Pods
pub mod Services
use open_terminal_k8s_proxy.Base.{
  String, Option, none, some, List, [], ◌∷◌, map, ◌==◌, if◌then◌else◌, truthy,
}
use open_terminal_k8s_proxy.Base.Dict
use open_terminal_k8s_proxy.Base.Dict.{put_some, put_some-get, Dict}
use open_terminal_k8s_proxy.Base.Exec.{Result, ok, err, value_error}
use open_terminal_k8s_proxy.Config.{Settings, StorageMode, per_user, shared, shared_rwo}
use open_terminal_k8s_proxy.Json.{Json, text, number, object, array, texts}
use open_terminal_k8s_proxy.Codecs.{Codecs}
use open_terminal_k8s_proxy.Models.{TerminalPod}
use open_terminal_k8s_proxy.PodBuilder.Shared.{
  shared_pvc_name, api_key_secret_key, last_active_annotation, put_if_text, filled, pod_labels,
}
use open_terminal_k8s_proxy.PodBuilder.Claims.{build_pvc_manifest, build_secret_manifest}
use open_terminal_k8s_proxy.PodBuilder.Pods.{build_pod_manifest}
use open_terminal_k8s_proxy.PodBuilder.Services.{service_selector, build_service_manifest}

pub record Manifests : Type 0 where
  pub pod : Json
  pub pvc : Option Json
  pub secret : Json
  pub service : Json

-- What `build_pod_for_user` chooses by the storage mode.
pub record Storage : Type 0 where
  pub pvc_manifest : Option Json
  pub pvc_name : Option String
  pub shared_name : Option String
  pub shared_sub_path : Option String
  pub node_name : Option String

unfoldable pub choose_storage :
    TerminalPod → Settings → Option String → StorageMode → Result Storage
choose_storage terminal cfg shared_pvc_node per_user = elim terminal.pvc_name [
  | none ↦ err value_error
  | some name ↦ ok (record {
    pvc_manifest = some (
        build_pvc_manifest name cfg.storage_per_user_size cfg.storage_class_name "ReadWriteOnce"
          (pod_labels cfg terminal) []);
    pvc_name = some name;
    shared_name = none;
    shared_sub_path = none;
    node_name = none;
  })
]
choose_storage terminal cfg shared_pvc_node shared = ok (record {
  pvc_manifest = none;
  pvc_name = none;
  shared_name = some shared_pvc_name;
  shared_sub_path = some terminal.user_hash;
  node_name = none;
})
choose_storage terminal cfg shared_pvc_node shared_rwo = ok (record {
  pvc_manifest = none;
  pvc_name = none;
  shared_name = some shared_pvc_name;
  shared_sub_path = some terminal.user_hash;
  node_name = truthy shared_pvc_node;
})
choose_storage terminal cfg shared_pvc_node StorageMode.none = ok (record {
  pvc_manifest = none;
  pvc_name = none;
  shared_name = none;
  shared_sub_path = none;
  node_name = none;
})

module _ (lib : Codecs) where
  -- The manifests, once the storage is chosen.
  abbrev pub from_storage : TerminalPod → Settings → Result Storage → Result Manifests
  from_storage terminal cfg (err e) = err e
  from_storage terminal cfg (ok s) = ok (record {
    pod =
        build_pod_manifest terminal cfg s.pvc_name s.shared_name s.shared_sub_path s.node_name
          (some terminal.secret_name);
    pvc = s.pvc_manifest;
    secret =
        build_secret_manifest terminal.secret_name (lib.b64encode terminal.api_key)
          (pod_labels cfg terminal);
    service = build_service_manifest terminal cfg;
  })

  unfoldable pub build_pod_for_user : TerminalPod → Settings → Option String → Result Manifests
  build_pod_for_user terminal cfg shared_pvc_node =
      from_storage terminal cfg (choose_storage terminal cfg shared_pvc_node cfg.storage_mode)
