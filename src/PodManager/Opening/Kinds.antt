-- ===== src/PodManager/Opening/Kinds.antt =====
-- The requests that the creation of a pod may send.
use open_terminal_k8s_proxy.Base.{◌≡◌, refl, subst, ◌⊎◌, String, ◌<>◌, Option, some, [], ◌∷◌}
use open_terminal_k8s_proxy.Base.Dict
use open_terminal_k8s_proxy.Base.Dict.{Dict}
use open_terminal_k8s_proxy.Base.Exec.{Result, ok, err, Exec, ◌>>=◌, Preserves, ok-injective}
use open_terminal_k8s_proxy.Codecs.{Codecs}
use open_terminal_k8s_proxy.Config.{Settings}
use open_terminal_k8s_proxy.Json.{Json, text, member}
use open_terminal_k8s_proxy.Kube.{
  Env, Request, RetryLaws, load_incluster_config, load_kube_config, delete_namespaced_pod,
  delete_namespaced_service, delete_namespaced_secret, patch_namespaced_pvc, read_namespaced_pod,
  list_namespaced_pod, create_namespaced_pod, read_namespaced_pvc, create_namespaced_pvc,
  create_namespaced_service, create_namespaced_secret, http_get,
}
use open_terminal_k8s_proxy.Kube.Rules.{IsStable}
use open_terminal_k8s_proxy.Models.{TerminalPod}
use open_terminal_k8s_proxy.PodBuilder.{Manifests, Storage, from_storage, build_pod_for_user}
use open_terminal_k8s_proxy.PodBuilder.Claims.{build_pvc_manifest, build_secret_manifest}
use open_terminal_k8s_proxy.PodBuilder.Pods.{build_pod_manifest}
use open_terminal_k8s_proxy.PodBuilder.Selection.{within}
use open_terminal_k8s_proxy.PodBuilder.Services.{build_service_manifest}
use open_terminal_k8s_proxy.PodBuilder.Shared.{shared_pvc_name}
use open_terminal_k8s_proxy.PodManager.{Manager}
use open_terminal_k8s_proxy.PodManager.Create.{lift}
use open_terminal_k8s_proxy.Storage as Storage
use open_terminal_k8s_proxy.Storage.{
  is_shared_mode, is_per_user, ensure_shared_pvc, get_shared_pvc_node, touch_pvc, create_user_pvc,
}
use open_terminal_k8s_proxy.Storage.Expiry.{Logged, Logged-stable}

-- The manifest has the name.
abbrev pub IsNamed : String → Json → Type 0
IsNamed name m = within ("metadata" ∷ "name" ∷ []) m ≡ some (text name)

-- Reads, the health check of the pod's own service, the making of the shared claim and of what the
-- pod `t` names, the marking of its claim, and the deletion of its service, pod and secret.
abbrev pub MayOpen : TerminalPod → Request → Type 0
MayOpen t load_incluster_config = Unit
MayOpen t load_kube_config = Unit
MayOpen t (read_namespaced_pod name _) = name ≡ t.pod_name
MayOpen t (list_namespaced_pod _ _) = Unit
MayOpen t (read_namespaced_pvc name _) = (name ≡ shared_pvc_name) ⊎ (t.pvc_name ≡ some name)
MayOpen t (http_get url) = url ≡ "http://" <> t.service_name <> ":8000/health"
MayOpen t (create_namespaced_pvc _ m) =
    IsNamed shared_pvc_name m ⊎ ((name : String) × (t.pvc_name ≡ some name) × IsNamed name m)
MayOpen t (patch_namespaced_pvc name _ _) = t.pvc_name ≡ some name
MayOpen t (create_namespaced_secret _ m) = IsNamed t.secret_name m
MayOpen t (create_namespaced_pod _ m) = IsNamed t.pod_name m
MayOpen t (create_namespaced_service _ m) = IsNamed t.service_name m
MayOpen t (delete_namespaced_service name _) = name ≡ t.service_name
MayOpen t (delete_namespaced_pod name _ _) = name ≡ t.pod_name
MayOpen t (delete_namespaced_secret name _) = name ≡ t.secret_name
MayOpen t _ = ⊥

-- The manifests that are sent have the pod's names.
pub record IsTitled (t : TerminalPod) (m : Manifests) : Type 0 where
  pub secret : IsNamed t.secret_name m.secret
  pub pod : IsNamed t.pod_name m.pod
  pub service : IsNamed t.service_name m.service

IsTitled-from_storage :
    (lib : Codecs) (t : TerminalPod) (cfg : Settings) (r : Result Storage) (m : Manifests)
    → from_storage lib t cfg r ≡ ok m
    → IsTitled t m
unfolding build_pod_manifest build_secret_manifest build_service_manifest member
IsTitled-from_storage lib t cfg (err x) m e = cc
IsTitled-from_storage lib t cfg (ok s) m e =
    subst (IsTitled t) (ok-injective e) (record { secret = refl; pod = refl; service = refl })

pub IsTitled-build_pod_for_user :
    (lib : Codecs) (t : TerminalPod) (cfg : Settings) (found : Option String) (m : Manifests)
    → build_pod_for_user lib t cfg found ≡ ok m
    → IsTitled t m
unfolding build_pod_for_user
IsTitled-build_pod_for_user lib t cfg found m e = IsTitled-from_storage lib t cfg _ m e

pub build_pvc_manifest-IsNamed :
    (name size : String) (class mode : String) (labels annotations : Dict String)
    → IsNamed name (build_pvc_manifest name size class mode labels annotations)
unfolding build_pvc_manifest member Dict.put
build_pvc_manifest-IsNamed name size class mode labels [] = refl
build_pvc_manifest-IsNamed name size class mode labels (a ∷ annotations) = refl

pub Preserves-lift :
    {W A B : Type 0} {Inv : Manager W → Type 0} (r : Result A) (f : A → Exec (Manager W) B)
    → ((a : A) → r ≡ ok a → Preserves Inv (f a))
    → Preserves Inv (lift r >>= f)
unfolding ◌>>=◌
Preserves-lift (err e) f kept = record { at = λ s h. h }
Preserves-lift (ok a) f kept = record { at = (kept a refl).at }

module _ {W : Type 0} ⦃env : Env W⦄ (laws : RetryLaws env) (t : TerminalPod) where
  abbrev pub stable : IsStable env (Logged (MayOpen t)) (MayOpen t)
  stable = Logged-stable (MayOpen t) tt tt

  pub open_clock : Preserves (Logged {W = W} (MayOpen t)) Storage.utcnow
  open_clock = record { at = λ c h. record { log = h.log } }
