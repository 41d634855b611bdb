-- ===== src/PodManager/Opening/Rejected.antt =====
-- The creation of a pod's resources when the API server rejects the pod.
use open_terminal_k8s_proxy.Base.{
  ℕ, ◌≡◌, refl, inl, inr, [], String, zero, suc, Bool-cases, All, ap, ◌∙◌,
}
use open_terminal_k8s_proxy.Base.Exec.{
  Exn, err, Exec, ◌>>=◌, Preserves, Preserves-bind, Preserves-pure, api_exception, Exec-cases, on,
}
use open_terminal_k8s_proxy.Kube.{
  Client, Env, RetryLaws, Request, create_namespaced_pod, delete_namespaced_pod,
  delete_namespaced_pvc, delete_namespaced_service, delete_namespaced_secret,
}
use open_terminal_k8s_proxy.Kube.Methods.{send, core_v1, namespace, create_pod, has_retryable_type}
use open_terminal_k8s_proxy.Kube.Rules.{
  create_pod-Preserves, create_service-Preserves, create_secret-Preserves,
}
use open_terminal_k8s_proxy.Models.{TerminalPod}
use open_terminal_k8s_proxy.PodManager.{Manager, on_client}
use open_terminal_k8s_proxy.PodManager.Create.{launch, create_pod_resources}
use open_terminal_k8s_proxy.PodManager.Opening.Claims.{open_storage}
use open_terminal_k8s_proxy.PodManager.Opening.Holds.{
  Keeps, ClaimRules, ManagerHolds, ManagerHolds-on_client,
}
use open_terminal_k8s_proxy.Json.{Json}
use open_terminal_k8s_proxy.Kube.Retry.{tries, retried-tries}
use open_terminal_k8s_proxy.Storage.Expiry.{Logged, Logged-stable}
use open_terminal_k8s_proxy.PodManager.Opening.Kinds.{Preserves-lift}

-- An action that raises from every state.
record Fails {S A : Type 0} (m : Exec S A) : Type 0 where
  at : (s : S) → (e : Exn) × ((m s).0 ≡ err e)

module _ {S A B : Type 0} where
  Fails-first : (m : Exec S A) (f : A → Exec S B) → Fails m → Fails (m >>= f)
  unfolding ◌>>=◌
  Fails-first m f fails = record { at = λ s. let (e, raised) = fails.at s in (e, rw raised refl) }

  Fails-then : (m : Exec S A) (f : A → Exec S B) → ((a : A) → Fails (f a)) → Fails (m >>= f)
  unfolding ◌>>=◌
  Fails-then m f fails = record {
    at = λ s. elim (Exec-cases m s) [
      | inl (a, e) ↦ rw e ((fails a).at (m s).1)
      | inr (x, e) ↦ (x, rw e refl)
    ];
  }

module _ {W : Type 0} ⦃env : Env W⦄ where
  Fails-on_client : {A : Type 0} (m : Exec (Client W) A) → Fails m → Fails (on_client m)
  unfolding on
  Fails-on_client m fails = record { at = λ s. fails.at s.storage.client }

  Fails-tries :
      {A : Type 0} (m : Exec (Client W) A) → Fails m → (left n : ℕ) → Fails (tries left n m)
  unfolding tries
  Fails-tries m fails zero n = record { at = fails.at }
  Fails-tries m fails (suc left) n = record {
    at = λ c. elim (Exec-cases m c) [
      | inl (a, e) ↦ let (x, f) = fails.at c in cc
      | inr (x, e) ↦ elim (Bool-cases (has_retryable_type x)) [
        | inl again ↦ rw (e, tries) (rw again ((Fails-tries m fails left (suc n)).at _))
        | inr over ↦ (x, rw (e, tries) (rw over refl))
      ]
    ];
  }

-- Anything but a deletion.
abbrev pub IsNoDeletion : Request → Type 0
IsNoDeletion (delete_namespaced_pod _ _ _) = ⊥
IsNoDeletion (delete_namespaced_pvc _ _) = ⊥
IsNoDeletion (delete_namespaced_service _ _) = ⊥
IsNoDeletion (delete_namespaced_secret _ _) = ⊥
IsNoDeletion _ = Unit

claim_rules : (t : TerminalPod) → ClaimRules t IsNoDeletion
claim_rules t = record {
  reads = λ name ns h. tt;
  lists = λ ns selector. tt;
  makes = λ ns m h. tt;
  marks = λ name ns d h. tt;
}

module _ {W : Type 0} ⦃env : Env W⦄ (laws : RetryLaws env) (t : TerminalPod) where
  abbrev Kept : Client W → Type 0
  Kept = Logged IsNoDeletion

  keeps : Keeps env Kept IsNoDeletion
  keeps = record {
    stable = Logged-stable IsNoDeletion tt tt;
    moving = λ w c h. record { log = h.log };
  }

  launch-Kept : Preserves (ManagerHolds Kept) (launch t)
  unfolding launch
  launch-Kept =
      Preserves-bind _ _
        (ManagerHolds-on_client Kept _ (record { at = λ c h. record { log = h.log } }))
        λ start. Preserves-bind _ _ (open_storage laws t keeps (claim_rules t)) λ found.
          Preserves-lift _ _ λ m built.
            Preserves-bind _ _
              (ManagerHolds-on_client Kept _
                (create_secret-Preserves laws keeps.stable m.secret (λ ns. tt)))
              λ _.
                Preserves-bind _ _
                  (ManagerHolds-on_client Kept _
                    (create_pod-Preserves laws keeps.stable m.pod (λ ns. tt)))
                  λ _.
                    Preserves-bind _ _
                      (ManagerHolds-on_client Kept _
                        (create_service-Preserves laws keeps.stable m.service (λ ns. tt)))
                      λ _. Preserves-pure start

  module _ (status : ℕ)
      (rejects : (ns : String) (m : Json) (w : W)
        → (env.answer (create_namespaced_pod ns m) w).0 ≡ err (api_exception status)) where
    create_pod-Fails : (m : Json) → Fails {S = Client W} (create_pod m)
    unfolding create_pod send
    create_pod-Fails m =
        let sending : (k : String) → Fails {S = Client W} (send (create_namespaced_pod k m)) =
          λ k. record { at = λ c. (api_exception status, rejects k m c.world) } in
        let once = Fails-then core_v1 _ (λ _. Fails-then namespace _ (λ k. sending k)) in
        record {
          at = λ c.
              let (e, raised) = (Fails-tries _ once 2 1).at c in
              (e, ap (λ r. r.0) (retried-tries laws _ c) ∙ raised);
        }

    launch-Fails : Fails {S = Manager W} (launch t)
    unfolding launch
    launch-Fails = Fails-then _ _ λ start. Fails-then _ _ λ found.
        Fails-then _ _
          λ m. Fails-then _ _ λ _. Fails-first _ _ (Fails-on_client _ (create_pod-Fails m.pod))

    -- Under the documented laws of `retry`, if the API server rejects the creation of every pod: the
    -- creation of a pod's resources raises, and none of the requests that it sent is a deletion, of a
    -- pod, a service, a secret or a claim.
    pub create_pod_resources-rejected :
        (s : Manager W)
        → s.storage.client.sent ≡ []
        → ((e : Exn) × ((create_pod_resources t s).0 ≡ err e))
          × All IsNoDeletion (create_pod_resources t s).1.storage.client.sent
    unfolding create_pod_resources ◌>>=◌
    create_pod_resources-rejected s none_sent =
        let (e, raised) = launch-Fails.at s in
        let begun : ManagerHolds Kept s = record {
          storage = record { client = record { log = rw none_sent tt } };
        } in
        rw raised ((e, refl), (launch-Kept.at s begun).storage.client.log)
