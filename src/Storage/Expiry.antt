-- ===== src/Storage/Expiry.antt =====
-- Which claims the TTL cleanup of `cleanup_expired_pvcs` deletes.
use open_terminal_k8s_proxy.Base.{
  ℕ, ◌+◌, ◌<◌, ◌≡◌, refl, inl, inr, false, String, ◌==◌, List, [], ◌∷◌, All, Any, any, arith, not,
  ltb,
}
use open_terminal_k8s_proxy.Base.Exec.{
  Exec, pure, on, modify, Preserves, preserving, Preserves-bind, Preserves-if, Preserves-swallow,
}
use open_terminal_k8s_proxy.Codecs.{Codecs}
use open_terminal_k8s_proxy.Kube.{
  Client, Env, Pvc, Request, RetryLaws, load_incluster_config, load_kube_config,
  delete_namespaced_pvc,
}
use open_terminal_k8s_proxy.Kube.Methods.{send}
use open_terminal_k8s_proxy.Kube.Rules.{IsStable, delete_pvc-Preserves}
use open_terminal_k8s_proxy.Storage.{
  Storage, on_client, LastUse, unknown, last_used, zoned, last_use, owner, delete_user_pvc, expire,
  expire_all, is_per_user,
}

-- A claim of a user without a pod, last used longer ago than the retention time.
pub record IsExpired (lib : Codecs) (now ttl : ℕ) (active : List String) (pvc : Pvc) : Type 0 where
  pub unused : any (λ h. h == owner pvc) active ≡ false
  pub used_at : ℕ
  pub used : last_use lib pvc ≡ last_used used_at
  pub old : used_at + ttl < now

-- What the loop may send: a deletion of an expired claim of the list, and the client's start.
abbrev pub MaySend : Codecs → ℕ → ℕ → List String → List Pvc → Request → Type 0
MaySend lib now ttl active pvcs load_incluster_config = Unit
MaySend lib now ttl active pvcs load_kube_config = Unit
MaySend lib now ttl active pvcs (delete_namespaced_pvc name _) =
    Any (λ pvc. (pvc.name ≡ name) × IsExpired lib now ttl active pvc) pvcs
MaySend lib now ttl active pvcs _ = ⊥

-- All that was sent is of a kind.
pub record Logged {W : Type 0} (Q : Request → Type 0) (c : Client W) : Type 0 where
  pub log : All Q c.sent

pub record StorageLogged {W : Type 0} (Q : Request → Type 0) (s : Storage W) : Type 0 where
  pub client : Logged Q s.client

module _ {W : Type 0} ⦃env : Env W⦄ (Q : Request → Type 0) where
  pub Logged-stable : Q load_incluster_config → Q load_kube_config → IsStable env (Logged Q) Q
  unfolding send modify
  Logged-stable incluster kubeconfig = record {
    sending = λ r q. record { at = λ c h. record { log = (q, h.log) } };
    pausing = λ n c h. record { log = h.log };
    starting = record { at = λ c h. record { log = h.log } };
    incluster = incluster;
    kubeconfig = kubeconfig;
  }

  pub StorageLogged-on_client :
      {A : Type 0} (m : Exec (Client W) A)
      → Preserves (Logged Q) m
      → Preserves (StorageLogged Q) (on_client m)
  unfolding on
  StorageLogged-on_client m kept = record {
    at = λ s h. record { client = kept.at s.client h.client };
  }

-- A claim of the list that has the property is one of those that have it.
All-grow :
    {P R S : Pvc → Type 0} (f : (pvc : Pvc) → P pvc → R pvc → S pvc) (pvcs : List Pvc)
    → All (λ pvc. P pvc → R pvc) pvcs
    → All (λ pvc. P pvc → S pvc) pvcs
All-grow f [] h = tt
All-grow f (pvc ∷ pvcs) h = ((λ p. f pvc p (h.0 p)), All-grow f pvcs h.1)

abbrev Named : (Pvc → Type 0) → List Pvc → String → Type 0
Named P pvcs name = Any (λ pvc. (pvc.name ≡ name) × P pvc) pvcs

All-Named : (P : Pvc → Type 0) (pvcs : List Pvc) → All (λ pvc. P pvc → Named P pvcs pvc.name) pvcs
All-Named P [] = tt
All-Named P (pvc ∷ pvcs) =
    ((λ p. inl (refl, p)), All-grow (λ q p named. inr named) pvcs (All-Named P pvcs))

module _ {W : Type 0} ⦃env : Env W⦄ (laws : RetryLaws env) (now ttl : ℕ)
    (active : List String) where
  abbrev Expired : Pvc → Type 0
  Expired = IsExpired env.codecs now ttl active

  module _ (Q : Request → Type 0) (stable : IsStable env (Logged Q) Q) where
    deleting :
        (name : String)
        → ((ns : String) → Q (delete_namespaced_pvc name ns))
        → Preserves (StorageLogged {W = W} Q) (delete_user_pvc name)
    unfolding delete_user_pvc
    deleting name q =
        Preserves-if (not (is_per_user env.settings.storage_mode)) (pure tt) _
          (λ _. search preserving)
          (λ _.
            Preserves-swallow _
              (StorageLogged-on_client Q _ (delete_pvc-Preserves laws stable name q)))

    expiring :
        (pvc : Pvc)
        → any (λ h. h == owner pvc) active ≡ false
        → (Expired pvc → (ns : String) → Q (delete_namespaced_pvc pvc.name ns))
        → (u : LastUse) → last_use env.codecs pvc ≡ u
        → Preserves (StorageLogged {W = W} Q) (expire now ttl pvc.name u)
    expiring pvc free q unknown e = search preserving
    expiring pvc free q (zoned t) e = search preserving
    expiring pvc free q (last_used t) e =
        Preserves-if (ltb (t + ttl) now) _ (pure tt)
          (λ over.
            deleting pvc.name
              (q (record { unused = free; used_at = t; used = e; old = ground (arith, over) })))
          (λ _. search preserving)

    expiring-list :
        (pvcs : List Pvc)
        → All (λ pvc. Expired pvc → (ns : String) → Q (delete_namespaced_pvc pvc.name ns)) pvcs
        → Preserves (StorageLogged {W = W} Q) (expire_all now ttl active pvcs)
    unfolding expire_all
    expiring-list [] q = search preserving
    expiring-list (pvc ∷ pvcs) q =
        Preserves-if _ _ _ (λ _. expiring-list pvcs q.1)
          (λ free. Preserves-bind _ _ (expiring pvc free q.0 _ refl) (λ _. expiring-list pvcs q.1))

  -- Under the documented laws of `retry`, the cleanup's loop over the listed claims sends nothing but, beside the client's start, deletions
  -- of claims of that list, each of a user without an active pod and last used longer ago than the
  -- retention time; whatever the cluster answers, and also if the loop ends with an error.
  pub expire_all-MaySend :
      (pvcs : List Pvc) (s : Storage W)
      → s.client.sent ≡ []
      → All
          (MaySend env.codecs now ttl active pvcs)
          (expire_all now ttl active pvcs s).1.client.sent
  expire_all-MaySend pvcs s none_sent =
      let Q : Request → Type 0 = MaySend env.codecs now ttl active pvcs in
      let q = All-grow (λ pvc p named ns. named) pvcs (All-Named Expired pvcs) in
      let start : StorageLogged Q s = record { client = record { log = rw none_sent tt } } in
      ((expiring-list Q (Logged-stable Q tt tt) pvcs q).at s start).client.log
