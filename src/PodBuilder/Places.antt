-- ===== src/PodBuilder/Places.antt =====
-- The places of a pod's manifest: the reference to the key, the volumes and their mounts.
use open_terminal_k8s_proxy.Base.{
  ℕ, ◌≡◌, refl, ◌∙◌, ap, inl, inr, false, String, ◌==◌, Option, none, some, List, [], ◌∷◌, truthy,
  Option-cases,
}
use open_terminal_k8s_proxy.Base.Dict
use open_terminal_k8s_proxy.Base.Dict.{put_some, put_some-get, Dict, get-put}
use open_terminal_k8s_proxy.Config.{Settings}
use open_terminal_k8s_proxy.Json.{Json, text, object, array, member, element, member-object}
use open_terminal_k8s_proxy.PodBuilder.Pods.{
  Mount, container, api_key_variable, pod_spec, volumes, tolerations, node_name_json,
  security_context,
}
use open_terminal_k8s_proxy.PodBuilder.Shared.{filled, api_key_secret_key}

-- A place in a JSON value: the keys and the positions on the way to it.
pub data Step : Type 0 where
  key : String → Step
  item : ℕ → Step

abbrev stepped : Step → Json → Option Json
stepped (key k) v = member k v
stepped (item n) v = element n v

abbrev and_then : Option Json → (Json → Option Json) → Option Json
and_then none f = none
and_then (some v) f = f v

abbrev pub follow : List Step → Json → Option Json
follow [] v = some v
follow (s ∷ path) v = and_then (stepped s v) (follow path)

-- The optional keys of a pod's `spec` hide no other key.
optional_keys :
    (k : String) (a b c e : Option Json) (d : Dict Json)
    → ("tolerations" == k) ≡ false
    → ("nodeSelector" == k) ≡ false
    → ("nodeName" == k) ≡ false
    → ("securityContext" == k) ≡ false
    → Dict.get k (
        put_some "tolerations" a
          (put_some "nodeSelector" b (put_some "nodeName" c (put_some "securityContext" e d))))
      ≡ Dict.get k d
optional_keys k a b c e d p q r s =
    let inner = put_some "securityContext" e d in
    let middle = put_some "nodeName" c inner in
    put_some-get "tolerations" k a (put_some "nodeSelector" b middle) p
    ∙ put_some-get "nodeSelector" k b middle q
    ∙ put_some-get "nodeName" k c inner r
    ∙ put_some-get "securityContext" k e d s

module _ (cfg : Settings) (mount : Option Mount) (on_node : Option String) (env_var : Json) where
  abbrev fixed_keys : Dict Json
  fixed_keys =
      ("containers", array (container cfg mount env_var ∷ []))
      ∷ ("volumes", array (volumes mount))
      ∷ ("restartPolicy", text "Never")
      ∷ []

  fixed_key :
      (k : String)
      → ("tolerations" == k) ≡ false
      → ("nodeSelector" == k) ≡ false
      → ("nodeName" == k) ≡ false
      → ("securityContext" == k) ≡ false
      → member k (object (pod_spec cfg mount on_node env_var)) ≡ Dict.get k fixed_keys
  unfolding pod_spec
  fixed_key k p q r s =
      member-object k _
      ∙ optional_keys k (tolerations cfg.terminal_tolerations) (filled cfg.terminal_node_selector)
          (node_name_json on_node) (security_context mount) fixed_keys p q r s

  pub container_at :
      (path : List Step)
      → follow (key "containers" ∷ item 0 ∷ path) (object (pod_spec cfg mount on_node env_var))
        ≡ follow path (container cfg mount env_var)
  unfolding element Dict.get
  container_at path =
      ap (λ o. and_then o (follow (item 0 ∷ path))) (fixed_key "containers" refl refl refl refl)

  pub volumes_at :
      (path : List Step)
      → follow (key "volumes" ∷ path) (object (pod_spec cfg mount on_node env_var))
        ≡ follow path (array (volumes mount))
  unfolding Dict.get
  volumes_at path = ap (λ o. and_then o (follow path)) (fixed_key "volumes" refl refl refl refl)

abbrev pub text_of : Option String → Option Json
text_of none = none
text_of (some s) = some (text s)

abbrev pub claim_of : Option Mount → Option String
claim_of none = none
claim_of (some m) = some m.claim

abbrev pub directory_of : Option Mount → Option String
directory_of none = none
directory_of (some m) = m.sub_path

pub claim_in :
    (mount : Option Mount)
    → follow (item 0 ∷ key "persistentVolumeClaim" ∷ key "claimName" ∷ []) (array (volumes mount))
      ≡ text_of (claim_of mount)
unfolding member element
claim_in none = refl
claim_in (some m) = refl

pub alone_in : (mount : Option Mount) → follow (item 1 ∷ []) (array (volumes mount)) ≡ none
unfolding element
alone_in none = refl
alone_in (some m) = refl

pub directory_in :
    (cfg : Settings) (mount : Option Mount) (env_var : Json)
    → follow (key "volumeMounts" ∷ item 0 ∷ key "subPath" ∷ []) (container cfg mount env_var)
      ≡ text_of (directory_of mount)
unfolding container member element Dict.put
directory_in cfg none env_var = refl
directory_in cfg (some m) env_var = elim (Option-cases m.sub_path) [
  | inl e ↦ rw e refl
  | inr (p, e) ↦ rw e refl
]

pub mounted_in :
    (cfg : Settings) (mount : Option Mount) (env_var : Json)
    → follow (key "volumeMounts" ∷ item 0 ∷ key "name" ∷ []) (container cfg mount env_var)
      ≡ follow (item 0 ∷ key "name" ∷ []) (array (volumes mount))
unfolding container member element Dict.put
mounted_in cfg none env_var = refl
mounted_in cfg (some m) env_var = elim (Option-cases m.sub_path) [
  | inl e ↦ rw e refl
  | inr (p, e) ↦ rw e refl
]

reference :
    (secret_name api_key : String)
    → truthy (some secret_name) ≡ some secret_name
    → api_key_variable (some secret_name) api_key
      ≡ object (
          ("name", text "OPEN_TERMINAL_API_KEY")
          ∷ (
            "valueFrom",
            object (
                (
                  "secretKeyRef",
                  object (("name", text secret_name) ∷ ("key", text api_key_secret_key) ∷ []),
                )
                ∷ []),
          )
          ∷ [])
unfolding api_key_variable
reference secret_name api_key named = rw (named, api_key_variable) refl

pub referred :
    (cfg : Settings) (mount : Option Mount) (secret_name api_key k : String)
    → truthy (some secret_name) ≡ some secret_name
    → follow
        (key "env" ∷ item 0 ∷ key "valueFrom" ∷ key "secretKeyRef" ∷ key k ∷ [])
        (container cfg mount (api_key_variable (some secret_name) api_key))
      ≡ follow
          (key k ∷ [])
          (object (("name", text secret_name) ∷ ("key", text api_key_secret_key) ∷ []))
unfolding container member element
referred cfg mount secret_name api_key k named =
    ap
      (λ v.
        follow (key "env" ∷ item 0 ∷ key "valueFrom" ∷ key "secretKeyRef" ∷ key k ∷ [])
          (container cfg mount v))
      (reference secret_name api_key named)
