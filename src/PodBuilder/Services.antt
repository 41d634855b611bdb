-- ===== src/PodBuilder/Services.antt =====
-- The manifest of a service (terminal_proxy/k8s/pod_builder.py).
use open_terminal_k8s_proxy.Base.{String, [], ◌∷◌}
use open_terminal_k8s_proxy.Base.Dict.{Dict}
use open_terminal_k8s_proxy.Config.{Settings}
use open_terminal_k8s_proxy.Json.{Json, text, number, object, array, texts}
use open_terminal_k8s_proxy.Models.{TerminalPod}
use open_terminal_k8s_proxy.PodBuilder.Shared.{pod_labels}

abbrev pub service_selector : Settings → TerminalPod → Dict String
service_selector cfg terminal = ("app", cfg.labels_app) ∷ ("user-id-hash", terminal.user_hash) ∷ []

unfoldable pub build_service_manifest : TerminalPod → Settings → Json
build_service_manifest terminal cfg = object (
    ("apiVersion", text "v1")
    ∷ ("kind", text "Service")
    ∷ (
      "metadata",
      object
          (("name", text terminal.service_name) ∷ ("labels", texts (pod_labels cfg terminal)) ∷ []),
    )
    ∷ (
      "spec",
      object (
          ("type", text "ClusterIP")
          ∷ ("selector", texts (service_selector cfg terminal))
          ∷ (
            "ports",
            array (
                object (
                  ("name", text "http")
                  ∷ ("port", number 8000)
                  ∷ ("targetPort", number cfg.terminal_service_port)
                  ∷ ("protocol", text "TCP")
                  ∷ [])
                ∷ []),
          )
          ∷ []),
    )
    ∷ [])
