-- ===== src/PodManager/Requests.antt =====
-- What the manager sends to the cluster when it deletes a pod.
use open_terminal_k8s_proxy.Base.{
  ◌≡◌, refl, String, Option, none, some, [], All, truthy, arith, Option-cases, inl, inr, not,
}
use open_terminal_k8s_proxy.Base.Dict
use open_terminal_k8s_proxy.Base.Exec.{
  Exec, pure, on, swallow, ◌>>=◌, ◌>>◌, Preserves, preserving, Preserves-bind, Preserves-if,
  Preserves-swallow,
}
use open_terminal_k8s_proxy.Kube.{
  Client, Env, Request, RetryLaws, load_incluster_config, load_kube_config, delete_namespaced_pod,
  delete_namespaced_service, delete_namespaced_secret, delete_namespaced_pvc, patch_namespaced_pvc,
}
use open_terminal_k8s_proxy.Kube.Methods
use open_terminal_k8s_proxy.Kube.Rules.{
  IsStable, delete_service-Preserves, delete_pod-Preserves, delete_secret-Preserves,
  delete_pvc-Preserves, annotate_pvc-Preserves,
}
use open_terminal_k8s_proxy.Models.{TerminalPod}
use open_terminal_k8s_proxy.PodManager.{Manager, on_client, on_storage}
use open_terminal_k8s_proxy.PodManager.Methods.{delete_claim, delete_pod}
use open_terminal_k8s_proxy.Storage.{Storage, touch_pvc, delete_user_pvc, is_per_user}
use open_terminal_k8s_proxy.Storage.Expiry.{
  Logged, StorageLogged, Logged-stable, StorageLogged-on_client,
}

-- The requests that name only what belongs to the pod `t`, and the client's start.
abbrev pub MayClear : TerminalPod → Request → Type 0
MayClear t load_incluster_config = Unit
MayClear t load_kube_config = Unit
MayClear t (delete_namespaced_service name _) = name ≡ t.service_name
MayClear t (delete_namespaced_pod name _ _) = name ≡ t.pod_name
MayClear t (delete_namespaced_secret name _) = name ≡ t.secret_name
MayClear t (delete_namespaced_pvc name _) = t.pvc_name ≡ some name
MayClear t (patch_namespaced_pvc name _ _) = t.pvc_name ≡ some name
MayClear t _ = ⊥

pub truthy-some : (o : Option String) (name : String) → truthy o ≡ some name → o ≡ some name
truthy-some none name e = cc
truthy-some (some text) name e = ground (arith, e)

pub record ManagerLogged {W : Type 0} (Q : Request → Type 0) (s : Manager W) : Type 0 where
  pub storage : StorageLogged Q s.storage

module _ {W : Type 0} (Q : Request → Type 0) where
  pub ManagerLogged-on_storage :
      {A : Type 0} (m : Exec (Storage W) A)
      → Preserves (StorageLogged Q) m
      → Preserves (ManagerLogged Q) (on_storage m)
  unfolding on
  ManagerLogged-on_storage m kept = record {
    at = λ s h. record { storage = kept.at s.storage h.storage };
  }

  pub ManagerLogged-on_client :
      {A : Type 0} (m : Exec (Client W) A)
      → Preserves (Logged Q) m
      → Preserves (ManagerLogged Q) (on_client m)
  unfolding on
  ManagerLogged-on_client m kept = record {
    at = λ s h. record { storage = record { client = kept.at s.storage.client h.storage.client } };
  }

module _ {W : Type 0} ⦃env : Env W⦄ (laws : RetryLaws env) (t : TerminalPod) where
  abbrev stable : IsStable env (Logged (MayClear t)) (MayClear t)
  stable = Logged-stable (MayClear t) tt tt

  clear_touch :
      (name : String)
      → t.pvc_name ≡ some name
      → Preserves (StorageLogged {W = W} (MayClear t)) (touch_pvc name)
  unfolding touch_pvc
  clear_touch name e = Preserves-swallow _ (
      StorageLogged-on_client (MayClear t) _ (
        Preserves-bind _ _ (record { at = λ c h. record { log = h.log } })
          (λ now. annotate_pvc-Preserves laws stable name _ (λ ns. e))))

  clear_delete :
      (name : String)
      → t.pvc_name ≡ some name
      → Preserves (StorageLogged {W = W} (MayClear t)) (delete_user_pvc name)
  unfolding delete_user_pvc
  clear_delete name e =
      Preserves-if (not (is_per_user env.settings.storage_mode)) (pure tt) _
        (λ _. search preserving)
        (λ _. Preserves-swallow _ (
          StorageLogged-on_client (MayClear t) _ (delete_pvc-Preserves laws stable name (λ ns. e))))

  clear_claim : Preserves (ManagerLogged {W = W} (MayClear t)) (delete_claim t)
  unfolding delete_claim
  clear_claim = elim (Option-cases (truthy t.pvc_name)) [
    | inl e ↦ rw (e, delete_claim) (search preserving)
    | inr (name, e) ↦
        let own = truthy-some t.pvc_name name e in
        rw (e, delete_claim)
          (Preserves-if (is_per_user env.settings.storage_mode) _ (pure tt)
            (λ _.
              Preserves-if env.settings.storage_retain_pvc _ _
                (λ _.
                  Preserves-swallow _
                    (ManagerLogged-on_storage (MayClear t) _ (clear_touch name own)))
                (λ _.
                  Preserves-swallow _
                    (ManagerLogged-on_storage (MayClear t) _ (clear_delete name own))))
            (λ _. search preserving))
  ]

  clearing : Preserves (ManagerLogged {W = W} (MayClear t)) (
      swallow (on_client (Methods.delete_service t.service_name))
      >> (swallow (on_client (Methods.delete_pod t.pod_name))
          >> (swallow (on_client (Methods.delete_secret t.secret_name)) >> delete_claim t)))
  clearing =
      let service = delete_service-Preserves laws stable t.service_name (λ ns. refl) in
      let pod = delete_pod-Preserves laws stable t.pod_name (λ ns. refl) in
      let secret = delete_secret-Preserves laws stable t.secret_name (λ ns. refl) in
      Preserves-bind _ _ (Preserves-swallow _ (ManagerLogged-on_client (MayClear t) _ service))
        (λ _.
          Preserves-bind _ _ (Preserves-swallow _ (ManagerLogged-on_client (MayClear t) _ pod))
            (λ _.
              Preserves-bind _ _
                (Preserves-swallow _ (ManagerLogged-on_client (MayClear t) _ secret))
                (λ _. clear_claim)))

  -- Under the documented laws of `retry`, deleting a tracked pod sends nothing but, beside the client's start, requests that delete the
  -- service, the pod, the secret or the claim of its own names, or mark that claim as in use;
  -- whatever the cluster answers, and however often a request is tried again.
  pub delete_pod-MayClear :
      (h : String) (s : Manager W)
      → Dict.get h s.pods ≡ some t
      → s.storage.client.sent ≡ []
      → All (MayClear t) (delete_pod h s).1.storage.client.sent
  unfolding delete_pod ◌>>=◌
  delete_pod-MayClear h s known none_sent =
      let dropped = record s { pods = Dict.remove h s.pods } in
      let start : ManagerLogged (MayClear t) dropped = record {
        storage = record { client = record { log = rw none_sent tt } };
      } in
      rw known (clearing.at dropped start).storage.client.log
