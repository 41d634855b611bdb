-- ===== src/PodBuilder/Pods.antt =====
-- The manifest of a pod (terminal_proxy/k8s/pod_builder.py).
use open_terminal_k8s_proxy.Base.{String, Option, none, some, List, [], ◌∷◌, map, truthy}
use open_terminal_k8s_proxy.Base.Dict.{put_some, Dict}
use open_terminal_k8s_proxy.Config.{Settings}
use open_terminal_k8s_proxy.Json.{Json, text, number, object, array, texts}
use open_terminal_k8s_proxy.Models.{TerminalPod}
use open_terminal_k8s_proxy.PodBuilder.Shared.{api_key_secret_key, put_if_text, filled, pod_labels}

-- The claim that the pod mounts, with the mount's `subPath`: the user's own, else the shared one.
pub record Mount : Type 0 where
  pub volume : String
  pub claim : String
  pub sub_path : Option String

unfoldable pub choose_mount : Option String → Option String → Option String → Option Mount
choose_mount pvc_name shared_name shared_sub_path = elim (truthy pvc_name) [
  | some claim ↦ some (record { volume = "user-data"; claim = claim; sub_path = none })
  | none ↦ elim (truthy shared_name) [
    | some claim ↦
        some (record { volume = "shared-data"; claim = claim; sub_path = truthy shared_sub_path })
    | none ↦ none
  ]
]

abbrev pub volumes : Option Mount → List Json
volumes none = []
volumes (some m) =
    object (
      ("name", text m.volume)
      ∷ ("persistentVolumeClaim", object (("claimName", text m.claim) ∷ []))
      ∷ [])
    ∷ []

abbrev sub_path_json : Option String → Option Json
sub_path_json none = none
sub_path_json (some p) = some (text p)

abbrev pub volume_mounts : Option Mount → List Json
volume_mounts none = []
volume_mounts (some m) =
    object (
      put_some "subPath" (sub_path_json m.sub_path)
        (("name", text m.volume) ∷ ("mountPath", text "/data") ∷ []))
    ∷ []

-- `OPEN_TERMINAL_API_KEY`: a reference to the secret, or the key itself if no secret is named.
unfoldable pub api_key_variable : Option String → String → Json
api_key_variable secret_name api_key = elim (truthy secret_name) [
  | some name ↦ object (
      ("name", text "OPEN_TERMINAL_API_KEY")
      ∷ (
        "valueFrom",
        object (
            ("secretKeyRef", object (("name", text name) ∷ ("key", text api_key_secret_key) ∷ []))
            ∷ []),
      )
      ∷ [])
  | none ↦ object (("name", text "OPEN_TERMINAL_API_KEY") ∷ ("value", text api_key) ∷ [])
]

abbrev pub home_variable : Option Mount → List Json
home_variable none = []
home_variable (some m) = object (("name", text "HOME") ∷ ("value", text "/data") ∷ []) ∷ []

unfoldable pub container : Settings → Option Mount → Json → Json
container cfg mount env_var = object (
    ("name", text "terminal")
    ∷ ("image", text cfg.terminal_image)
    ∷ ("imagePullPolicy", text cfg.terminal_image_pull_policy)
    ∷ ("ports", array (object (("containerPort", number cfg.terminal_service_port) ∷ []) ∷ []))
    ∷ ("env", array (env_var ∷ home_variable mount))
    ∷ (
      "resources",
      object (
          (
            "requests",
            object (
                put_if_text "ephemeral-storage" cfg.terminal_ephemeral_storage_request (
                  ("cpu", text cfg.terminal_cpu_request)
                  ∷ ("memory", text cfg.terminal_memory_request)
                  ∷ [])),
          )
          ∷ (
            "limits",
            object (
                put_if_text "ephemeral-storage" cfg.terminal_ephemeral_storage_limit (
                  ("cpu", text cfg.terminal_cpu_limit)
                  ∷ ("memory", text cfg.terminal_memory_limit)
                  ∷ [])),
          )
          ∷ []),
    )
    ∷ ("volumeMounts", array (volume_mounts mount))
    ∷ [])

abbrev pub security_context : Option Mount → Option Json
security_context none = none
security_context (some m) =
    some (object (("fsGroup", number 1000) ∷ ("fsGroupChangePolicy", text "Always") ∷ []))

abbrev pub tolerations : List (Dict String) → Option Json
tolerations [] = none
tolerations (t ∷ ts) = some (array (map texts (t ∷ ts)))

abbrev pub node_name_json : Option String → Option Json
node_name_json node = elim (truthy node) [ some n ↦ some (text n) | none ↦ none ]

unfoldable pub pod_spec : Settings → Option Mount → Option String → Json → Dict Json
pod_spec cfg mount node_name env_var =
    put_some "tolerations" (tolerations cfg.terminal_tolerations) (
      put_some "nodeSelector" (filled cfg.terminal_node_selector) (
        put_some "nodeName" (node_name_json node_name) (
          put_some "securityContext" (security_context mount) (
            ("containers", array (container cfg mount env_var ∷ []))
            ∷ ("volumes", array (volumes mount))
            ∷ ("restartPolicy", text "Never")
            ∷ []))))

-- The caller passes `cfg.terminal_node_selector` for `node_selector`.
unfoldable pub build_pod_manifest :
    TerminalPod
    → Settings
    → Option String
    → Option String
    → Option String
    → Option String
    → Option String
    → Json
build_pod_manifest terminal cfg pvc_name shared_name shared_sub_path node_name secret_name =
    let mount = choose_mount pvc_name shared_name shared_sub_path in
    object (
      ("apiVersion", text "v1")
      ∷ ("kind", text "Pod")
      ∷ (
        "metadata",
        object
            (("name", text terminal.pod_name) ∷ ("labels", texts (pod_labels cfg terminal)) ∷ []),
      )
      ∷ (
        "spec",
        object (pod_spec cfg mount node_name (api_key_variable secret_name terminal.api_key)),
      )
      ∷ [])
