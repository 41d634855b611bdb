-- ===== src/PodBuilder/Shared.antt =====
-- The names and labels that the manifests of terminal_proxy/k8s/pod_builder.py share.
use open_terminal_k8s_proxy.Base.{String, Option, none, some, [], ◌∷◌, ◌==◌, if◌then◌else◌}
use open_terminal_k8s_proxy.Base.Dict
use open_terminal_k8s_proxy.Base.Dict.{Dict}
use open_terminal_k8s_proxy.Config.{Settings}
use open_terminal_k8s_proxy.Json.{Json, text, texts}
use open_terminal_k8s_proxy.Models.{TerminalPod}

abbrev pub shared_pvc_name : String
shared_pvc_name = "terminal-shared-storage"

abbrev pub api_key_secret_key : String
api_key_secret_key = "api-key"

abbrev pub last_active_annotation : String
last_active_annotation = "terminal-proxy/last-active"

-- `if value: d[key] = v`
abbrev pub put_if_text : String → String → Dict Json → Dict Json
put_if_text key value d = if value == "" then d else Dict.put key (text value) d

-- A non-empty `dict` or list, as a condition.
abbrev pub filled : Dict String → Option Json
filled [] = none
filled (e ∷ d) = some (texts (e ∷ d))

abbrev pub pod_labels : Settings → TerminalPod → Dict String
pod_labels cfg terminal =
    ("app", cfg.labels_app)
    ∷ ("managed-by", cfg.labels_managed_by)
    ∷ ("user-id-hash", terminal.user_hash)
    ∷ []
