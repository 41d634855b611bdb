-- ===== src/PodBuilder/Claims.antt =====
-- The manifests of claims and secrets (terminal_proxy/k8s/pod_builder.py).
use open_terminal_k8s_proxy.Base.{String, [], ◌∷◌}
use open_terminal_k8s_proxy.Base.Dict.{put_some, Dict}
use open_terminal_k8s_proxy.Json.{Json, text, object, array, texts}
use open_terminal_k8s_proxy.PodBuilder.Shared.{api_key_secret_key, put_if_text, filled}

unfoldable pub build_pvc_manifest :
    String → String → String → String → Dict String → Dict String → Json
build_pvc_manifest pvc_name size storage_class_name access_mode labels annotations =
    let spec : Dict Json = put_if_text "storageClassName" storage_class_name (
      ("accessModes", array (text access_mode ∷ []))
      ∷ ("resources", object (("requests", object (("storage", text size) ∷ [])) ∷ []))
      ∷ []) in
    let metadata : Dict Json =
      put_some "annotations" (filled annotations)
        (("name", text pvc_name) ∷ ("labels", texts labels) ∷ []) in
    object (
      ("apiVersion", text "v1")
      ∷ ("kind", text "PersistentVolumeClaim")
      ∷ ("metadata", object metadata)
      ∷ ("spec", object spec)
      ∷ [])

-- `encoded_key` is the key in base 64.
unfoldable pub build_secret_manifest : String → String → Dict String → Json
build_secret_manifest secret_name encoded_key labels = object (
    ("apiVersion", text "v1")
    ∷ ("kind", text "Secret")
    ∷ ("metadata", object (("name", text secret_name) ∷ ("labels", texts labels) ∷ []))
    ∷ ("type", text "Opaque")
    ∷ ("data", object ((api_key_secret_key, text encoded_key) ∷ []))
    ∷ [])
