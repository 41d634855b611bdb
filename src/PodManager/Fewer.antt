-- ===== src/PodManager/Fewer.antt =====
-- The background rounds track no new pod.
use open_terminal_k8s_proxy.Base.{
  ℕ, ◌≤◌, ◌≢◌, ap, String, none, List, [], ◌∷◌, length, All, arith, eq_iff, Option-cases, inl, inr,
}
use open_terminal_k8s_proxy.Base.Dict
use open_terminal_k8s_proxy.Base.Dict.{Dict, get-put, length-remove-le, length-put_known}
use open_terminal_k8s_proxy.Base.Exec.{
  Exec, modify, on, ◌>>=◌, Preserves, Preserves-bind, Exec-cases, preserving,
}
use open_terminal_k8s_proxy.Kube.{Client, Env}
use open_terminal_k8s_proxy.Models.{TerminalPod}
use open_terminal_k8s_proxy.PodManager.{Manager, on_client, on_storage}
use open_terminal_k8s_proxy.PodManager.Methods.{
  put_pod, delete_pod, delete_all, cleanup_idle_pods, act_on, check_one, check_all, fail_and_delete,
  fail_all, check_pod_health, pvc_cleanup, Health, healthy, unhealthy, moved,
}
use open_terminal_k8s_proxy.PodManager.Removal.{delete_pod_lem}
use open_terminal_k8s_proxy.PodManager.Upkeep.{fail_and_delete_lem}
use open_terminal_k8s_proxy.Storage.{Storage}

-- No more than `n` pods are tracked, and those of `d` are.
record Holds {W : Type 0} (n : ℕ) (d : Dict TerminalPod) (s : Manager W) : Type 0 where
  count : length s.pods ≤ n
  known : (k : String) → Dict.get k d ≢ none → Dict.get k s.pods ≢ none

-- No more than `n` pods are tracked.
pub record AtMost {W : Type 0} (n : ℕ) (s : Manager W) : Type 0 where
  pub count : length s.pods ≤ n

module _ {W : Type 0} (n : ℕ) where
  pub AtMost-on_client : {A : Type 0} (m : Exec (Client W) A) → Preserves (AtMost n) (on_client m)
  unfolding on
  AtMost-on_client m = record { at = λ s h. record { count = h.count } }

  pub AtMost-on_storage :
      {A : Type 0} (m : Exec (Storage W) A) → Preserves (AtMost n) (on_storage m)
  unfolding on
  AtMost-on_storage m = record { at = λ s h. record { count = h.count } }

  Holds-on_client :
      {A : Type 0} (d : Dict TerminalPod) (m : Exec (Client W) A)
      → Preserves (Holds n d) (on_client m)
  unfolding on
  Holds-on_client d m = record { at = λ s h. record { count = h.count; known = h.known } }

ruleset fewer_rules = (preserving, AtMost-on_client, AtMost-on_storage)

module _ {W : Type 0} ⦃env : Env W⦄ (n : ℕ) where
  AtMost-delete_pod : (h : String) → Preserves {S = Manager W} (AtMost n) (delete_pod h)
  AtMost-delete_pod h = record {
    at = λ s few.
        let (done, left, same) = delete_pod_lem h s in
        record { count = omega (arith, ap length left, length-remove-le h s.pods, few.count) };
  }

  AtMost-delete_all : (hs : List String) → Preserves {S = Manager W} (AtMost n) (delete_all hs)
  unfolding delete_all
  AtMost-delete_all [] = search preserving
  AtMost-delete_all (h ∷ hs) = Preserves-bind _ _ (AtMost-delete_pod h) (λ _. AtMost-delete_all hs)

  pub AtMost-cleanup_idle_pods : Preserves {S = Manager W} (AtMost n) cleanup_idle_pods
  unfolding cleanup_idle_pods
  AtMost-cleanup_idle_pods = search (fewer_rules, AtMost-delete_all)

  pub AtMost-pvc_cleanup : Preserves {S = Manager W} (AtMost n) pvc_cleanup
  unfolding pvc_cleanup
  AtMost-pvc_cleanup = search fewer_rules

  AtMost-fail_and_delete : (h : String) → Preserves {S = Manager W} (AtMost n) (fail_and_delete h)
  AtMost-fail_and_delete h = record {
    at = λ s few.
        let (done, left) = fail_and_delete_lem h s in
        record { count = omega (arith, ap length left, length-remove-le h s.pods, few.count) };
  }

  AtMost-fail_all : (hs : List String) → Preserves {S = Manager W} (AtMost n) (fail_all hs)
  unfolding fail_all
  AtMost-fail_all [] = search preserving
  AtMost-fail_all (h ∷ hs) = Preserves-bind _ _ (AtMost-fail_and_delete h) (λ _. AtMost-fail_all hs)

  Holds-put_pod :
      (d : Dict TerminalPod) (h : String) (t : TerminalPod)
      → Dict.get h d ≢ none
      → Preserves {S = Manager W} (Holds n d) (put_pod h t)
  unfolding modify
  Holds-put_pod d h t there = record {
    at = λ s holds. elim (Option-cases (Dict.get h s.pods)) [
      | inl gone ↦ absurd (holds.known h there gone)
      | inr (w, found) ↦ record {
        count = omega (arith, length-put_known h t w s.pods found, holds.count);
        known = λ k in_d. ground (arith, eq_iff h k, get-put h k t s.pods, holds.known k in_d);
      }
    ];
  }

  Holds-act_on :
      (d : Dict TerminalPod) (h : String) (t : TerminalPod) (r : Health)
      → Dict.get h d ≢ none
      → Preserves {S = Manager W} (Holds n d) (act_on h t r)
  unfolding act_on
  Holds-act_on d h t unhealthy there = search preserving
  Holds-act_on d h t healthy there = search preserving
  Holds-act_on d h t (moved ip) there =
      Preserves-bind _ _ (Holds-put_pod d h (record t { pod_ip = ip }) there)
        (λ _. search preserving)

  Holds-check_one :
      (d : Dict TerminalPod) (h : String) (t : TerminalPod)
      → Dict.get h d ≢ none
      → Preserves {S = Manager W} (Holds n d) (check_one h t)
  unfolding check_one
  Holds-check_one d h t there = search (preserving, Holds-on_client, Holds-act_on)

  Holds-check_all :
      (d e : Dict TerminalPod)
      → All (λ x. Dict.get x.0 d ≢ none) e
      → Preserves {S = Manager W} (Holds n d) (check_all e)
  unfolding check_all
  Holds-check_all d [] a = search preserving
  Holds-check_all d ((h, t) ∷ e) a =
      Preserves-bind _ _ (Holds-check_one d h t a.0)
        (λ _. Preserves-bind _ _ (Holds-check_all d e a.1) (λ _. search preserving))

own_keys :
    (d e : Dict TerminalPod)
    → ((k : String) → Dict.get k e ≢ none → Dict.get k d ≢ none)
    → All (λ x. Dict.get x.0 d ≢ none) e
unfolding Dict.get
own_keys d [] sub = tt
own_keys d ((h, t) ∷ e) sub =
    (sub h (ground (arith, eq_iff h h)), own_keys d e (λ k there. sub k (ground (arith, there))))

module _ {W : Type 0} ⦃env : Env W⦄ (n : ℕ) where
  pub AtMost-check_pod_health : Preserves {S = Manager W} (AtMost n) check_pod_health
  unfolding check_pod_health ◌>>=◌
  AtMost-check_pod_health = record {
    at = λ s few.
        let none_new =
          (Holds-check_all n s.pods s.pods (own_keys s.pods s.pods (λ k there. there))).at s
            (record { count = few.count; known = λ k there. there }) in
        elim (Exec-cases (check_all s.pods) s) [
          | inl (bad, e) ↦ rw e ((AtMost-fail_all n bad).at _ (record { count = none_new.count }))
          | inr (x, e) ↦ rw e (record { count = none_new.count })
        ];
  }
