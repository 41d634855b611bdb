-- ===== src/PodManager/Restart.antt =====
-- The key of a pod over a restart of the proxy: from the secret's manifest back to the manager.
use mathlib.Core.Option
use open_terminal_k8s_proxy.Base.{
  ◌≡◌, refl, sym, ap, ◌∙◌, subst, true, String, Option, none, some, [], ◌∷◌, arith,
}
use open_terminal_k8s_proxy.Base.Dict
use open_terminal_k8s_proxy.Base.Dict.{Dict}
use open_terminal_k8s_proxy.Base.Exec.{
  Result, ok, err, Exec, pure, on, ok-injective, ◌>>=◌, attempt,
}
use open_terminal_k8s_proxy.Codecs.{Codecs, Base64Laws}
use open_terminal_k8s_proxy.Config.{Settings}
use open_terminal_k8s_proxy.Json.{Json, text, member, texts, object, member-texts}
use open_terminal_k8s_proxy.Kube.{Client, Env, RetryLaws, Secret, read_namespaced_secret}
use open_terminal_k8s_proxy.Kube.Methods.{
  get_secret, core_v1, namespace, send, or_missing, retried, policy,
}
use open_terminal_k8s_proxy.Models.{TerminalPod}
use open_terminal_k8s_proxy.PodBuilder.{Manifests, Storage, build_pod_for_user, from_storage}
use open_terminal_k8s_proxy.PodBuilder.Shared.{api_key_secret_key}
use open_terminal_k8s_proxy.PodBuilder.Claims.{build_secret_manifest}
use open_terminal_k8s_proxy.PodManager.{Manager}
use open_terminal_k8s_proxy.PodManager.Methods.{get_api_key_from_secret, key_or_new, decoded}

abbrev payload : String → Json
payload encoded = object ((api_key_secret_key, text encoded) ∷ [])

stored_data :
    (lib : Codecs) (t : TerminalPod) (cfg : Settings) (r : Result Storage) (m : Manifests)
    → from_storage lib t cfg r ≡ ok m
    → member "data" m.secret ≡ some (payload (lib.b64encode t.api_key))
unfolding build_secret_manifest member
stored_data lib t cfg (err e) m h = cc
stored_data lib t cfg (ok chosen) m h =
    subst (λ m. member "data" m.secret ≡ some (payload (lib.b64encode t.api_key))) (ok-injective h)
      refl

as_text : (x : Option String) (s : String) → Option.map text x ≡ some (text s) → x ≡ some s
as_text none s h = cc
as_text (some t) s h = cc

-- The entry of the key in data that a manifest's object holds.
key_entry :
    (d : Dict String) (encoded : String)
    → some (texts d) ≡ some (payload encoded)
    → Dict.get api_key_secret_key d ≡ some encoded
unfolding member
key_entry d encoded same =
    let inner : texts d ≡ payload encoded = cc (same) in
    as_text _ encoded
      (sym (member-texts api_key_secret_key d) ∙ ap (member api_key_secret_key) inner)

module _ {W : Type 0} ⦃env : Env W⦄ where
  abbrev reading : String → Exec (Client W) (Option Secret)
  reading name = or_missing none (
      core_v1 >>= λ _.
      namespace >>= λ ns. send (read_namespaced_secret name ns) >>= λ secret. pure (some secret))

  reads :
      (name : String) (secret : Secret) (c : Client W)
      → c.initialized ≡ true
      → (env.answer (read_namespaced_secret name c.namespace) c.world).0 ≡ ok secret
      → reading name c ≡ (
        ok (some secret),
        record c {
          world = (env.answer (read_namespaced_secret name c.namespace) c.world).1;
          sent = read_namespaced_secret name c.namespace ∷ c.sent;
        },
      )
  unfolding or_missing attempt core_v1 send ◌>>=◌
  reads name secret c ready answer = ground (arith, ready, answer)

  read_secret :
      (laws : RetryLaws env) (name : String) (secret : Secret) (c : Client W)
      → c.initialized ≡ true
      → ((w : W) → (env.answer (read_namespaced_secret name c.namespace) w).0 ≡ ok secret)
      → (get_secret name c).0 ≡ ok (some secret)
  unfolding get_secret retried
  read_secret laws name secret c ready answers =
      ap (λ x. x.0)
        (laws.succeed _ policy 1 (reading name) c _ (some secret)
          (reads name secret c ready (answers c.world)))

  -- Under the documented laws of `retry` and of base64, if the API server answers the reading of a
  -- pod's secret with the data of the manifest that was built for the pod, an initialized client gets
  -- the pod's key back.
  pub get_api_key_from_secret-build_pod_for_user :
      (laws : RetryLaws env) (codecs : Base64Laws env.codecs) (t : TerminalPod)
      (found : Option String) (m : Manifests) (d : Dict String) (s : Manager W)
      → build_pod_for_user env.codecs t env.settings found ≡ ok m
      → member "data" m.secret ≡ some (texts d)
      → ((w : W)
          → (env.answer (read_namespaced_secret t.secret_name s.storage.client.namespace) w).0
            ≡ ok (record { secret_data = some d }))
      → s.storage.client.initialized ≡ true
      → (get_api_key_from_secret t.secret_name s).0 ≡ ok t.api_key
  unfolding get_api_key_from_secret key_or_new decoded ◌>>=◌ on build_pod_for_user
  get_api_key_from_secret-build_pod_for_user laws codecs t found m d s made stored answers ready =
      let entry = key_entry d _ (sym stored ∙ stored_data env.codecs t env.settings _ m made) in
      let read = read_secret laws t.secret_name _ s.storage.client ready answers in
      ground (arith, read, entry, codecs.b64decode-b64encode t.api_key)
