-- ===== src/PodBuilder/Wiring.antt =====
-- How the manifests of a pod refer to one another: the key, the claim, and the user's directory.
use open_terminal_k8s_proxy.Base.{
  ◌≡◌, refl, sym, ◌∙◌, subst, ap, inl, inr, String, Option, none, some, List, [], ◌∷◌, ◌++◌, truthy,
  Option-cases,
}
use open_terminal_k8s_proxy.Base.Exec.{Result, ok, err, ok-injective}
use open_terminal_k8s_proxy.Codecs.{Codecs}
use open_terminal_k8s_proxy.Config.{Settings, StorageMode, per_user, shared, shared_rwo}
use open_terminal_k8s_proxy.Json.{Json, text, object, array, member}
use open_terminal_k8s_proxy.Models.{TerminalPod}
use open_terminal_k8s_proxy.PodBuilder.{
  Manifests, build_pod_for_user, choose_storage, from_storage, Storage,
}
use open_terminal_k8s_proxy.PodBuilder.Claims.{build_secret_manifest}
use open_terminal_k8s_proxy.PodBuilder.Pods.{
  Mount, choose_mount, container, api_key_variable, pod_spec, build_pod_manifest, volumes,
}
use open_terminal_k8s_proxy.PodBuilder.Shared.{shared_pvc_name, api_key_secret_key}
use open_terminal_k8s_proxy.PodBuilder.Places.{
  Step, key, item, follow, text_of, claim_of, directory_of, container_at, volumes_at, claim_in,
  alone_in, directory_in, mounted_in, referred,
}

abbrev pub secret_ref : List Step
secret_ref =
    key "spec"
    ∷ key "containers"
    ∷ item 0
    ∷ key "env"
    ∷ item 0
    ∷ key "valueFrom"
    ∷ key "secretKeyRef"
    ∷ []

-- The claim and the directory in it that a pod is to have, by the storage mode.
abbrev pub claim_for : StorageMode → TerminalPod → Option String
claim_for per_user t = t.pvc_name
claim_for shared t = some shared_pvc_name
claim_for shared_rwo t = some shared_pvc_name
claim_for StorageMode.none t = none

abbrev pub directory_for : StorageMode → TerminalPod → Option String
directory_for shared t = some t.user_hash
directory_for shared_rwo t = some t.user_hash
directory_for _ t = none

-- The first container's key comes from the secret, under the entry that holds the encoded key; its
-- only volume is the claim of the storage mode, mounted from the user's own directory in it.
pub record IsWired (lib : Codecs) (mode : StorageMode) (t : TerminalPod) (m : Manifests)
    : Type 0 where
  pub secret :
      follow (secret_ref ++ (key "name" ∷ [])) m.pod
      ≡ follow (key "metadata" ∷ key "name" ∷ []) m.secret
  pub entry : follow (secret_ref ++ (key "key" ∷ [])) m.pod ≡ some (text api_key_secret_key)
  pub stored :
      follow (key "data" ∷ key api_key_secret_key ∷ []) m.secret
      ≡ some (text (lib.b64encode t.api_key))
  pub claim :
      follow
        (key "spec" ∷ key "volumes" ∷ item 0 ∷ key "persistentVolumeClaim" ∷ key "claimName" ∷ [])
        m.pod
      ≡ text_of (claim_for mode t)
  pub alone : follow (key "spec" ∷ key "volumes" ∷ item 1 ∷ []) m.pod ≡ none
  pub directory :
      follow
        (key "spec" ∷ key "containers" ∷ item 0 ∷ key "volumeMounts" ∷ item 0 ∷ key "subPath" ∷ [])
        m.pod
      ≡ text_of (directory_for mode t)
  pub mounted :
      follow
        (key "spec" ∷ key "containers" ∷ item 0 ∷ key "volumeMounts" ∷ item 0 ∷ key "name" ∷ [])
        m.pod
      ≡ follow (key "spec" ∷ key "volumes" ∷ item 0 ∷ key "name" ∷ []) m.pod

module _ (lib : Codecs) (cfg : Settings) (mode : StorageMode) (t : TerminalPod)
    (named : truthy (some t.secret_name) ≡ some t.secret_name) where
  abbrev Fits : Result Storage → Type 0
  Fits (err e) = Unit
  Fits (ok s) =
      let mount = choose_mount s.pvc_name s.shared_name s.shared_sub_path in
      (claim_of mount ≡ claim_for mode t) × (directory_of mount ≡ directory_for mode t)

  module _ (s : Storage) where
    abbrev mount_of : Option Mount
    mount_of = choose_mount s.pvc_name s.shared_name s.shared_sub_path

    abbrev variable : Json
    variable = api_key_variable (some t.secret_name) t.api_key

    abbrev pod_of : Json
    pod_of =
        build_pod_manifest t cfg s.pvc_name s.shared_name s.shared_sub_path s.node_name
          (some t.secret_name)

    in_spec :
        (path : List Step)
        → follow (key "spec" ∷ path) pod_of
          ≡ follow path (object (pod_spec cfg mount_of s.node_name variable))
    unfolding build_pod_manifest member
    in_spec path = refl

    in_container :
        (path : List Step)
        → follow (key "spec" ∷ key "containers" ∷ item 0 ∷ path) pod_of
          ≡ follow path (container cfg mount_of variable)
    in_container path =
        in_spec (key "containers" ∷ item 0 ∷ path)
        ∙ container_at cfg mount_of s.node_name variable path

    in_volumes :
        (path : List Step)
        → follow (key "spec" ∷ key "volumes" ∷ path) pod_of ≡ follow path (array (volumes mount_of))
    in_volumes path =
        in_spec (key "volumes" ∷ path) ∙ volumes_at cfg mount_of s.node_name variable path

    in_reference :
        (k : String)
        → follow (secret_ref ++ (key k ∷ [])) pod_of
          ≡ follow
              (key k ∷ [])
              (object (("name", text t.secret_name) ∷ ("key", text api_key_secret_key) ∷ []))
    in_reference k =
        in_container (key "env" ∷ item 0 ∷ key "valueFrom" ∷ key "secretKeyRef" ∷ key k ∷ [])
        ∙ referred cfg mount_of t.secret_name t.api_key k named

  IsWired-from_storage :
      (r : Result Storage) (m : Manifests)
      → from_storage lib t cfg r ≡ ok m
      → Fits r
      → IsWired lib mode t m
  unfolding build_secret_manifest member
  IsWired-from_storage (err e) m h fits = cc
  IsWired-from_storage (ok s) m h fits = subst (IsWired lib mode t) (ok-injective h) (record {
    secret = in_reference s "name";
    entry = in_reference s "key";
    stored = refl;
    claim =
        in_volumes s (item 0 ∷ key "persistentVolumeClaim" ∷ key "claimName" ∷ [])
        ∙ claim_in (mount_of s)
        ∙ ap text_of fits.0;
    alone = in_volumes s (item 1 ∷ []) ∙ alone_in (mount_of s);
    directory =
        in_container s (key "volumeMounts" ∷ item 0 ∷ key "subPath" ∷ [])
        ∙ directory_in cfg (mount_of s) (variable s)
        ∙ ap text_of fits.1;
    mounted =
        in_container s (key "volumeMounts" ∷ item 0 ∷ key "name" ∷ [])
        ∙ mounted_in cfg (mount_of s) (variable s)
        ∙ sym (in_volumes s (item 0 ∷ key "name" ∷ []));
  })

  module _ (hashed : truthy (some t.user_hash) ≡ some t.user_hash)
      (claimed : truthy t.pvc_name ≡ t.pvc_name) where
    Fits-choose_storage :
        (found : Option String) (used : StorageMode)
        → mode ≡ used
        → Fits (choose_storage t cfg found mode)
    unfolding choose_storage choose_mount
    Fits-choose_storage found per_user same = elim (Option-cases t.pvc_name) [
      | inl e ↦ rw same (rw (e, choose_storage) tt)
      | inr (name, e) ↦
          let whole : truthy (some name) ≡ some name = subst (λ o. truthy o ≡ o) e claimed in
          rw same (rw (e, choose_storage) (rw (whole, choose_mount) (refl, refl)))
    ]
    Fits-choose_storage found shared same = rw same (rw (hashed, choose_mount) (refl, refl))
    Fits-choose_storage found shared_rwo same = rw same (rw (hashed, choose_mount) (refl, refl))
    Fits-choose_storage found StorageMode.none same = rw same (refl, refl)

module _ (lib : Codecs) (cfg : Settings) (t : TerminalPod) where
  -- Of the manifests that are built for a terminal whose user hash and secret name are not empty, nor
  -- its claim's name where it has one, in every storage mode: the pod's container takes its API key
  -- from the secret of the same manifests, under the entry that holds the encoded key; the pod's only
  -- volume is the claim of the mode, the user's own or the shared one or none; and the container
  -- mounts that volume, from the directory of the user's hash where the claim is shared.
  pub build_pod_for_user-IsWired :
      (found : Option String) (m : Manifests)
      → truthy (some t.secret_name) ≡ some t.secret_name
      → truthy (some t.user_hash) ≡ some t.user_hash
      → truthy t.pvc_name ≡ t.pvc_name
      → build_pod_for_user lib t cfg found ≡ ok m
      → IsWired lib cfg.storage_mode t m
  unfolding build_pod_for_user
  build_pod_for_user-IsWired found m named hashed claimed h =
      IsWired-from_storage lib cfg cfg.storage_mode t named
        (choose_storage t cfg found cfg.storage_mode) m h
        (Fits-choose_storage lib cfg cfg.storage_mode t named hashed claimed found cfg.storage_mode
          refl)
