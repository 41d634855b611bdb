-- ===== src/PodBuilder/Selection.antt =====
-- The service of a user's pod finds the pod.
use open_terminal_k8s_proxy.Base.{
  ◌≡◌, refl, sym, ◌∙◌, subst, inl, inr, String, ◌==◌, eq_iff, Option, none, some, List, [], ◌∷◌,
  Bool-cases,
}
use open_terminal_k8s_proxy.Base.Exec.{Result, ok, err, ok-injective}
use open_terminal_k8s_proxy.Codecs.{Codecs}
use open_terminal_k8s_proxy.Config.{Settings}
use open_terminal_k8s_proxy.Json.{Json, member, texts}
use open_terminal_k8s_proxy.Models.{TerminalPod}
use open_terminal_k8s_proxy.PodBuilder.{
  Manifests, build_pod_for_user, choose_storage, from_storage, Storage,
}
use open_terminal_k8s_proxy.PodBuilder.Shared.{pod_labels}
use open_terminal_k8s_proxy.PodBuilder.Services.{service_selector, build_service_manifest}
use open_terminal_k8s_proxy.PodBuilder.Pods.{build_pod_manifest}

-- `v[k1][k2]...`, none if a key is not there.
abbrev pub within : List String → Json → Option Json
within [] v = some v
within (k ∷ ks) v = elim (member k v) [ none ↦ none | some w ↦ within ks w ]

selector_at :
    (t : TerminalPod) (cfg : Settings) (k : String)
    → within ("spec" ∷ "selector" ∷ k ∷ []) (build_service_manifest t cfg)
      ≡ within (k ∷ []) (texts (service_selector cfg t))
unfolding build_service_manifest member
selector_at t cfg k = refl

labels_at :
    (t : TerminalPod) (cfg : Settings) (k : String) (pvc share sub on_node secret : Option String)
    → within
        ("metadata" ∷ "labels" ∷ k ∷ [])
        (build_pod_manifest t cfg pvc share sub on_node secret)
      ≡ within (k ∷ []) (texts (pod_labels cfg t))
unfolding build_pod_manifest member
labels_at t cfg k pvc share sub on_node secret = refl

selected :
    (t : TerminalPod) (cfg : Settings) (k : String) (v : Json)
    → within (k ∷ []) (texts (service_selector cfg t)) ≡ some v
    → within (k ∷ []) (texts (pod_labels cfg t)) ≡ some v
unfolding member
selected t cfg k v h =
    let Kept : String → Type 0 = λ j.
      within (j ∷ []) (texts (service_selector cfg t)) ≡ some v
      → within (j ∷ []) (texts (pod_labels cfg t)) ≡ some v in
    elim (Bool-cases ("app" == k)) [
      | inl app ↦ subst Kept ((eq_iff "app" k).0 app) (λ same. same) h
      | inr not_app ↦ elim (Bool-cases ("user-id-hash" == k)) [
        | inl hash ↦ subst Kept ((eq_iff "user-id-hash" k).0 hash) (λ same. same) h
        | inr not_hash ↦
            let missing : within (k ∷ []) (texts (service_selector cfg t)) ≡ none =
              rw (not_app, within, not_hash) refl in
            cc
      ]
    ]

module _ (lib : Codecs) (t : TerminalPod) (cfg : Settings) where
  abbrev Matches : String → Json → Manifests → Type 0
  Matches k v m =
      within ("spec" ∷ "selector" ∷ k ∷ []) m.service ≡ some v
      → within ("metadata" ∷ "labels" ∷ k ∷ []) m.pod ≡ some v

  built :
      (k : String) (v : Json) (r : Result Storage) (m : Manifests)
      → from_storage lib t cfg r ≡ ok m
      → Matches k v m
  built k v (err e) m h = cc
  built k v (ok s) m h = subst (Matches k v) (ok-injective h) (λ chosen.
      labels_at t cfg k s.pvc_name s.shared_name s.shared_sub_path s.node_name (some t.secret_name)
      ∙ selected t cfg k v (sym (selector_at t cfg k) ∙ chosen))

  -- Of the manifests that are built for a pod, in every storage mode, each label that the service
  -- selects by stands with the same value among the pod's labels: the service finds the pod.
  pub service-selects :
      (found : Option String) (m : Manifests) (k : String) (v : Json)
      → build_pod_for_user lib t cfg found ≡ ok m
      → within ("spec" ∷ "selector" ∷ k ∷ []) m.service ≡ some v
      → within ("metadata" ∷ "labels" ∷ k ∷ []) m.pod ≡ some v
  unfolding build_pod_for_user
  service-selects found m k v h = built k v (choose_storage t cfg found cfg.storage_mode) m h
