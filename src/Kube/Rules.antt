-- ===== src/Kube/Rules.antt =====
-- A property of the client's state that every request of a kind keeps, and every wait, is kept by
-- the methods that send only requests of that kind.
use open_terminal_k8s_proxy.Base.{ℕ, true, String}
use open_terminal_k8s_proxy.Base.Dict.{Dict}
use open_terminal_k8s_proxy.Base.Exec.{
  Exec, modify, ◌>>=◌, Preserves, preserving, Preserves-bind, Preserves-if, Preserves-attempt,
}
use open_terminal_k8s_proxy.Json.{Json}
use open_terminal_k8s_proxy.Kube.{
  Client, Env, RetryLaws, Request, load_incluster_config, load_kube_config, read_namespaced_pod,
  list_namespaced_pod, create_namespaced_pod, delete_namespaced_pod, read_namespaced_pvc,
  create_namespaced_pvc, delete_namespaced_pvc, list_namespaced_pvc, patch_namespaced_pvc,
  create_namespaced_service, delete_namespaced_service, read_namespaced_secret,
  create_namespaced_secret, delete_namespaced_secret,
}
use open_terminal_k8s_proxy.Kube.Methods.{
  send, load_kubeconfig, load_config, init, core_v1, namespace, retried, or_missing, get_pod,
  list_terminal_pods, create_pod, delete_pod, get_pvc, create_pvc, delete_pvc, list_user_pvcs,
  annotate_pvc, create_service, delete_service, get_secret, create_secret, delete_secret,
}
use open_terminal_k8s_proxy.Kube.Retry.{paused, retried-Preserves}

-- What the rules ask of the property `P` and the kind `Q`.
pub record IsStable {W : Type 0} (env : Env W) (P : Client W → Type 0) (Q : Request → Type 0)
    : Type 0 where
  pub sending : (r : Request) → Q r → Preserves P (send ⦃env = env⦄ r)
  pub pausing : (n : ℕ) (c : Client W) → P c → P (paused ⦃env = env⦄ n c)
  pub starting : Preserves P (modify (λ c. record c { initialized = true }))
  pub incluster : Q load_incluster_config
  pub kubeconfig : Q load_kube_config

module _ {W : Type 0} ⦃env : Env W⦄ (laws : RetryLaws env) {P : Client W → Type 0}
    {Q : Request → Type 0} (stable : IsStable env P Q) where
  load_kubeconfig-Preserves : Preserves P load_kubeconfig
  unfolding load_kubeconfig
  load_kubeconfig-Preserves =
      Preserves-attempt _ _ (stable.sending load_kube_config stable.kubeconfig)
        (λ _. search preserving)

  load_config-Preserves : Preserves P load_config
  unfolding load_config
  load_config-Preserves =
      Preserves-attempt _ _ (stable.sending load_incluster_config stable.incluster)
        (λ _. search (preserving, load_kubeconfig-Preserves))

  pub init-Preserves : Preserves P init
  unfolding init
  init-Preserves = Preserves-bind _ _ (search preserving) λ done.
      Preserves-if done _ _ (λ _. search preserving)
        (λ _. Preserves-bind _ _ load_config-Preserves (λ _. stable.starting))

  core_v1-Preserves : Preserves P core_v1
  unfolding core_v1
  core_v1-Preserves = search (preserving, init-Preserves)

  module _ {A : Type 0} (f : String → Exec (Client W) A)
      (kf : (ns : String) → Preserves P (f ns)) where
    call-Preserves : Preserves P (core_v1 >>= λ _. namespace >>= f)
    call-Preserves =
        Preserves-bind _ _ core_v1-Preserves (λ _. Preserves-bind _ _ (search preserving) kf)

    retried_call-Preserves : Preserves P (retried (core_v1 >>= λ _. namespace >>= f))
    retried_call-Preserves = retried-Preserves laws _ P stable.pausing call-Preserves

    or_missing_call-Preserves :
        (a : A) → Preserves P (retried (or_missing a (core_v1 >>= λ _. namespace >>= f)))
    unfolding or_missing
    or_missing_call-Preserves a =
        retried-Preserves laws _ P stable.pausing
          (Preserves-attempt _ _ call-Preserves (λ _. search preserving))

  pub get_pod-Preserves :
      (name : String)
      → ((ns : String) → Q (read_namespaced_pod name ns))
      → Preserves P (get_pod name)
  unfolding get_pod
  get_pod-Preserves name q =
      or_missing_call-Preserves _
        (λ ns. Preserves-bind _ _ (stable.sending _ (q ns)) (λ _. search preserving)) _

  pub create_pod-Preserves :
      (m : Json) → ((ns : String) → Q (create_namespaced_pod ns m)) → Preserves P (create_pod m)
  unfolding create_pod
  create_pod-Preserves m q = retried_call-Preserves _ (λ ns. stable.sending _ (q ns))

  pub delete_pod-Preserves :
      (name : String)
      → ((ns : String) → Q (delete_namespaced_pod name ns 30))
      → Preserves P (delete_pod name)
  unfolding delete_pod
  delete_pod-Preserves name q = or_missing_call-Preserves _ (λ ns. stable.sending _ (q ns)) _

  pub get_pvc-Preserves :
      (name : String)
      → ((ns : String) → Q (read_namespaced_pvc name ns))
      → Preserves P (get_pvc name)
  unfolding get_pvc
  get_pvc-Preserves name q =
      or_missing_call-Preserves _
        (λ ns. Preserves-bind _ _ (stable.sending _ (q ns)) (λ _. search preserving)) _

  pub create_pvc-Preserves :
      (m : Json) → ((ns : String) → Q (create_namespaced_pvc ns m)) → Preserves P (create_pvc m)
  unfolding create_pvc
  create_pvc-Preserves m q = retried_call-Preserves _ (λ ns. stable.sending _ (q ns))

  pub delete_pvc-Preserves :
      (name : String)
      → ((ns : String) → Q (delete_namespaced_pvc name ns))
      → Preserves P (delete_pvc name)
  unfolding delete_pvc
  delete_pvc-Preserves name q = or_missing_call-Preserves _ (λ ns. stable.sending _ (q ns)) _

  pub annotate_pvc-Preserves :
      (name : String) (d : Dict String)
      → ((ns : String) → Q (patch_namespaced_pvc name ns d))
      → Preserves P (annotate_pvc name d)
  unfolding annotate_pvc
  annotate_pvc-Preserves name d q = retried_call-Preserves _ (λ ns. stable.sending _ (q ns))

  pub create_service-Preserves :
      (m : Json)
      → ((ns : String) → Q (create_namespaced_service ns m))
      → Preserves P (create_service m)
  unfolding create_service
  create_service-Preserves m q = retried_call-Preserves _ (λ ns. stable.sending _ (q ns))

  pub delete_service-Preserves :
      (name : String)
      → ((ns : String) → Q (delete_namespaced_service name ns))
      → Preserves P (delete_service name)
  unfolding delete_service
  delete_service-Preserves name q = or_missing_call-Preserves _ (λ ns. stable.sending _ (q ns)) _

  pub get_secret-Preserves :
      (name : String)
      → ((ns : String) → Q (read_namespaced_secret name ns))
      → Preserves P (get_secret name)
  unfolding get_secret
  get_secret-Preserves name q =
      or_missing_call-Preserves _
        (λ ns. Preserves-bind _ _ (stable.sending _ (q ns)) (λ _. search preserving)) _

  pub create_secret-Preserves :
      (m : Json)
      → ((ns : String) → Q (create_namespaced_secret ns m))
      → Preserves P (create_secret m)
  unfolding create_secret
  create_secret-Preserves m q = retried_call-Preserves _ (λ ns. stable.sending _ (q ns))

  pub delete_secret-Preserves :
      (name : String)
      → ((ns : String) → Q (delete_namespaced_secret name ns))
      → Preserves P (delete_secret name)
  unfolding delete_secret
  delete_secret-Preserves name q = or_missing_call-Preserves _ (λ ns. stable.sending _ (q ns)) _

  pub list_terminal_pods-Preserves :
      ((ns selector : String) → Q (list_namespaced_pod ns selector))
      → Preserves P list_terminal_pods
  unfolding list_terminal_pods
  list_terminal_pods-Preserves q = retried_call-Preserves _ (λ ns. stable.sending _ (q ns _))

  pub list_user_pvcs-Preserves :
      ((ns selector : String) → Q (list_namespaced_pvc ns selector)) → Preserves P list_user_pvcs
  unfolding list_user_pvcs
  list_user_pvcs-Preserves q = retried_call-Preserves _ (λ ns. stable.sending _ (q ns _))
