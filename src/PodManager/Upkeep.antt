-- ===== src/PodManager/Upkeep.antt =====
-- The health check, the cleanups and the taking over of existing pods keep the tracked pods sound.
use open_terminal_k8s_proxy.Base.{
  ◌≡◌, refl, sym, subst, inl, inr, String, Option, none, some, List, [], ◌∷◌, truthy, arith,
  Option-cases,
}
use open_terminal_k8s_proxy.Base.Dict
use open_terminal_k8s_proxy.Base.Dict.{
  Dict, Distinct, Every-put, Every-remove, Every-remove_all, Distinct-put, Distinct-remove,
  Distinct-remove_all, remove-put,
}
use open_terminal_k8s_proxy.Base.Exec.{
  ok, Exec, modify, on, ◌>>=◌, Preserves, preserving, Preserves-bind,
}
use open_terminal_k8s_proxy.Kube.{Client, Env, Pod}
use open_terminal_k8s_proxy.Models.{TerminalPod, failed}
use open_terminal_k8s_proxy.PodManager.{Manager, on_client, on_storage}
use open_terminal_k8s_proxy.PodManager.Creation.{IsOwn}
use open_terminal_k8s_proxy.PodManager.Methods.{
  put_pod, delete_pod, delete_all, cleanup_idle_pods, act_on, check_one, check_all, fail_and_delete,
  fail_all, key_or_new, decoded, adopted, check_pod_health, moved, Health, pvc_cleanup,
  get_api_key_from_secret, adopt, reconcile_one, reconcile_all, reconcile_existing_pods,
}
use open_terminal_k8s_proxy.PodManager.Removal.{delete_pod_lem}
use open_terminal_k8s_proxy.PodManager.Spec.{IsSound}
use open_terminal_k8s_proxy.Storage.{Storage}

module _ {W : Type 0} where
  pub IsSound-on_client : {A : Type 0} (m : Exec (Client W) A) → Preserves IsSound (on_client m)
  unfolding on
  IsSound-on_client m = record { at = λ s v. record { distinct = v.distinct; own = v.own } }

  pub IsSound-on_storage : {A : Type 0} (m : Exec (Storage W) A) → Preserves IsSound (on_storage m)
  unfolding on
  IsSound-on_storage m = record { at = λ s v. record { distinct = v.distinct; own = v.own } }

  pub IsSound-same_pods : (s t : Manager W) → t.pods ≡ s.pods → IsSound s → IsSound t
  IsSound-same_pods s t p v = record {
    distinct = subst Distinct (sym p) v.distinct;
    own = subst (Dict.Every IsOwn) (sym p) v.own;
  }

pub ruleset sound_rules = (preserving, IsSound-on_client, IsSound-on_storage)

module _ {W : Type 0} ⦃env : Env W⦄ where
  pub IsSound-put_pod :
      (h : String) (t : TerminalPod) → IsOwn h t → Preserves {S = Manager W} IsSound (put_pod h t)
  unfolding modify
  IsSound-put_pod h t o = record {
    at = λ s v. record {
      distinct = Distinct-put h t s.pods v.distinct;
      own = Every-put IsOwn h t s.pods o v.own;
    };
  }

  IsSound-delete_pod : (h : String) → Preserves {S = Manager W} IsSound (delete_pod h)
  IsSound-delete_pod h = record {
    at = λ s v.
        let (done, left, same) = delete_pod_lem h s in
        record {
          distinct = subst Distinct (sym left) (Distinct-remove h s.pods v.distinct);
          own = subst (Dict.Every IsOwn) (sym left) (Every-remove IsOwn h s.pods v.own);
        };
  }

  -- Marking a pod as failed and deleting it never raises, and leaves the same tracked pods as
  -- dropping its key, whether it was tracked or not.
  pub fail_and_delete_lem :
      (h : String) (s : Manager W)
      → ((fail_and_delete h s).0 ≡ ok tt) × ((fail_and_delete h s).1.pods ≡ Dict.remove h s.pods)
  unfolding fail_and_delete ◌>>=◌
  fail_and_delete_lem h s = elim (Option-cases (Dict.get h s.pods)) [
    | inl e ↦ ground (arith, e, delete_pod_lem h s)
    | inr (t, e) ↦
        let marked = record t { state = failed } in
        ground (
          arith,
          e,
          delete_pod_lem h (record s { pods = Dict.put h marked s.pods }),
          remove-put h marked s.pods,
        )
  ]

  IsSound-fail_and_delete : (h : String) → Preserves {S = Manager W} IsSound (fail_and_delete h)
  IsSound-fail_and_delete h = record {
    at = λ s v.
        let left = (fail_and_delete_lem h s).1 in
        record {
          distinct = subst Distinct (sym left) (Distinct-remove h s.pods v.distinct);
          own = subst (Dict.Every IsOwn) (sym left) (Every-remove IsOwn h s.pods v.own);
        };
  }

  IsSound-fail_all : (hs : List String) → Preserves {S = Manager W} IsSound (fail_all hs)
  unfolding fail_all
  IsSound-fail_all [] = search sound_rules
  IsSound-fail_all (h ∷ hs) = search (sound_rules, IsSound-fail_and_delete h, IsSound-fail_all hs)

  IsSound-act_on :
      (h : String) (t : TerminalPod) (r : Health)
      → IsOwn h t
      → Preserves {S = Manager W} IsSound (act_on h t r)
  unfolding act_on
  IsSound-act_on h t (moved ip) o =
      Preserves-bind _ _
        (IsSound-put_pod h (record t { pod_ip = ip })
          (record { runs = o.runs; hash = o.hash; service = o.service; secret = o.secret }))
        (λ _. search sound_rules)
  IsSound-act_on h t _ o = search sound_rules

  IsSound-check_one :
      (h : String) (t : TerminalPod) → IsOwn h t → Preserves {S = Manager W} IsSound (check_one h t)
  unfolding check_one
  IsSound-check_one h t o = search (sound_rules, IsSound-act_on) depth 8

  IsSound-check_all :
      (d : Dict TerminalPod) → Dict.Every IsOwn d → Preserves {S = Manager W} IsSound (check_all d)
  unfolding check_all
  IsSound-check_all [] a = search sound_rules
  IsSound-check_all ((h, t) ∷ d) a =
      Preserves-bind _ _ (IsSound-check_one h t a.0)
        (λ _. Preserves-bind _ _ (IsSound-check_all d a.1) (λ _. search sound_rules))

  pub IsSound-check_pod_health : Preserves {S = Manager W} IsSound check_pod_health
  unfolding check_pod_health ◌>>=◌
  IsSound-check_pod_health = record {
    at = λ s v. (Preserves-bind _ _ (IsSound-check_all s.pods v.own) IsSound-fail_all).at s v;
  }

  IsSound-key_or_new : (k : Option String) → Preserves {S = Manager W} IsSound (key_or_new k)
  unfolding key_or_new
  IsSound-key_or_new none = search sound_rules
  IsSound-key_or_new (some k) = decoding (env.codecs.b64decode k)
    where
      decoding : (r : Option String) → Preserves {S = Manager W} IsSound (decoded r)
      decoding none = unfold decoded in search sound_rules
      decoding (some key) = unfold decoded in search sound_rules

  IsSound-adopt : (h : String) (pod : Pod) → Preserves {S = Manager W} IsSound (adopt h pod)
  unfolding adopt get_api_key_from_secret
  IsSound-adopt h pod = Preserves-bind _ _ (search (sound_rules, IsSound-key_or_new)) λ key.
      Preserves-bind _ _ (IsSound-on_client _) λ created_at.
        Preserves-bind _ _ (IsSound-on_client _) λ now.
          IsSound-put_pod h (adopted env.settings h pod key created_at now)
            (record { runs = refl; hash = refl; service = refl; secret = refl })

  IsSound-reconcile_one : (pod : Pod) → Preserves {S = Manager W} IsSound (reconcile_one pod)
  unfolding reconcile_one
  IsSound-reconcile_one pod = elim (Option-cases (truthy (Dict.get "user-id-hash" pod.labels))) [
    | inl e ↦ rw (e, reconcile_one) (search sound_rules)
    | inr (h, e) ↦ rw (e, reconcile_one) (search (sound_rules, IsSound-adopt))
  ]

  IsSound-reconcile_all : (pods : List Pod) → Preserves {S = Manager W} IsSound (reconcile_all pods)
  unfolding reconcile_all
  IsSound-reconcile_all [] = search sound_rules
  IsSound-reconcile_all (pod ∷ pods) =
      Preserves-bind _ _ (IsSound-reconcile_one pod) (λ _. IsSound-reconcile_all pods)

  pub IsSound-reconcile_existing_pods : Preserves {S = Manager W} IsSound reconcile_existing_pods
  unfolding reconcile_existing_pods
  IsSound-reconcile_existing_pods = search (sound_rules, IsSound-reconcile_all)

  IsSound-delete_all : (hs : List String) → Preserves {S = Manager W} IsSound (delete_all hs)
  unfolding delete_all
  IsSound-delete_all [] = search sound_rules
  IsSound-delete_all (h ∷ hs) =
      Preserves-bind _ _ (IsSound-delete_pod h) (λ _. IsSound-delete_all hs)

  pub IsSound-cleanup_idle_pods : Preserves {S = Manager W} IsSound cleanup_idle_pods
  unfolding cleanup_idle_pods
  IsSound-cleanup_idle_pods = search (sound_rules, IsSound-delete_all)

  pub IsSound-pvc_cleanup : Preserves {S = Manager W} IsSound pvc_cleanup
  unfolding pvc_cleanup
  IsSound-pvc_cleanup = search sound_rules
