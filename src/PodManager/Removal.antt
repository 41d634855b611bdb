-- ===== src/PodManager/Removal.antt =====
-- What removing pods does to the tracked pods, whatever the cluster answers.
use open_terminal_k8s_proxy.Base.{
  ℕ, ◌*◌, ◌≤◌, ◌≡◌, refl, Bool, false, String, ◌==◌, eq_iff, Option, none, some, List, [], ◌∷◌,
  if◌then◌else◌, arith, any, ◌⊎◌, inl, inr, Option-cases, ◌≢◌,
}
use open_terminal_k8s_proxy.Base.Dict
use open_terminal_k8s_proxy.Base.Dict.{Dict, Distinct, get-remove, get-remove_all}
use open_terminal_k8s_proxy.Base.Exec.{ok, Exec, on, swallow, ◌>>=◌, ◌>>◌}
use open_terminal_k8s_proxy.Kube.{Env}
use open_terminal_k8s_proxy.Models.{TerminalPod}
use open_terminal_k8s_proxy.PodManager.{Manager, on_client}
use open_terminal_k8s_proxy.PodManager.Quiet.{
  IsQuiet, IsQuiet-then, IsQuiet-client, IsQuiet-delete_claim,
}
use open_terminal_k8s_proxy.Kube.Methods
use open_terminal_k8s_proxy.PodManager.Methods.{
  older, oldest_from, is_idle, idle_keys, delete_pod, delete_claim, delete_all, evict_oldest,
  cleanup_idle_pods,
}

-- What is left of a pod, if any, by the idle test.
abbrev pub if_active : ℕ → ℕ → Option TerminalPod → Option TerminalPod
if_active now limit none = none
if_active now limit (some t) = if is_idle now limit t then none else some t

abbrev idle_at : ℕ → ℕ → Option TerminalPod → Bool
idle_at now limit none = false
idle_at now limit (some t) = is_idle now limit t

any-idle_keys :
    (now limit : ℕ) (j : String) (d : Dict TerminalPod)
    → Distinct d
    → any (λ k. k == j) (idle_keys now limit d) ≡ idle_at now limit (Dict.get j d)
unfolding idle_keys Dict.get
any-idle_keys now limit j [] u = refl
any-idle_keys now limit j ((h, t) ∷ d) u =
    ground (arith, eq_iff h j, any-idle_keys now limit j d u.1)

-- The chosen entry stands in the list, and no other was active longer ago.
oldest_from-mem :
    (e : String × TerminalPod) (d : Dict TerminalPod)
    → Distinct d
    → (oldest_from e d ≡ e) ⊎ (Dict.get (oldest_from e d).0 d ≡ some (oldest_from e d).1)
unfolding oldest_from Dict.get
oldest_from-mem e [] u = inl refl
oldest_from-mem e (f ∷ d) u =
    ground (arith, oldest_from-mem (older e f) d u.1, eq_iff f.0 (oldest_from (older e f) d).0)

oldest_from-le :
    (e : String × TerminalPod) (d : Dict TerminalPod)
    → ((oldest_from e d).1.last_active_at ≤ (e.1).last_active_at)
      × Dict.Every (λ _ t. (oldest_from e d).1.last_active_at ≤ t.last_active_at) d
unfolding oldest_from
oldest_from-le e [] = (omega arith, tt)
oldest_from-le e (f ∷ d) = ground (arith, oldest_from-le (older e f) d)

oldest-get :
    (e : String × TerminalPod) (d : Dict TerminalPod)
    → Distinct (e ∷ d)
    → Dict.get (oldest_from e d).0 (e ∷ d) ≡ some (oldest_from e d).1
unfolding Dict.get
oldest-get e d u = ground (arith, oldest_from-mem e d u.1, eq_iff e.0 (oldest_from e d).0)

module _ {W : Type 0} ⦃env : Env W⦄ where
  -- What follows the removal of a tracked pod's key.
  abbrev clear : TerminalPod → Exec (Manager W) Unit
  clear t =
      swallow (on_client (Methods.delete_service t.service_name))
      >> (swallow (on_client (Methods.delete_pod t.pod_name))
          >> (swallow (on_client (Methods.delete_secret t.secret_name)) >> delete_claim t))

  IsQuiet-clear : (t : TerminalPod) → IsQuiet (clear t)
  IsQuiet-clear t = IsQuiet-then _ _ (IsQuiet-client _) (
      IsQuiet-then _ _ (IsQuiet-client _)
        (IsQuiet-then _ _ (IsQuiet-client _) (IsQuiet-delete_claim t)))

  -- Whatever the cluster answers, deleting a pod never raises, drops its key and no other, and
  -- leaves the startup durations.
  pub delete_pod_lem :
      (h : String) (s : Manager W)
      → ((delete_pod h s).0 ≡ ok tt)
        × ((delete_pod h s).1.pods ≡ Dict.remove h s.pods)
        × ((delete_pod h s).1.startup_durations ≡ s.startup_durations)
  unfolding delete_pod ◌>>=◌
  delete_pod_lem h s =
      let dropped = record s { pods = Dict.remove h s.pods } in
      elim (Option-cases (Dict.get h s.pods)) [
        | inl e ↦ rw e (refl, refl, refl)
        | inr (t, e) ↦ rw e ((IsQuiet-clear t).at dropped)
      ]

  delete_all_lem :
      (hs : List String) (s : Manager W)
      → ((delete_all hs s).0 ≡ ok tt)
        × ((delete_all hs s).1.pods ≡ Dict.remove_all hs s.pods)
        × ((delete_all hs s).1.startup_durations ≡ s.startup_durations)
  unfolding delete_all Dict.remove_all ◌>>=◌
  delete_all_lem [] s = (refl, refl, refl)
  delete_all_lem (h ∷ hs) s =
      ground (arith, delete_pod_lem h s, delete_all_lem hs (delete_pod h s).1)

  -- With no key tracked twice, the cleanup never raises; a pod is tracked afterwards exactly if it was before and was not idle
  -- for longer than the timeout, and it is as it was.
  pub cleanup_idle_pods_lem :
      (s : Manager W) (j : String)
      → Distinct s.pods
      → ((cleanup_idle_pods s).0 ≡ ok tt)
        × (Dict.get j (cleanup_idle_pods s).1.pods
            ≡ if_active
                (env.utcnow s.storage.client.world).0
                (env.settings.pod_idle_timeout_seconds * 1000000)
                (Dict.get j s.pods))
  unfolding cleanup_idle_pods on ◌>>=◌
  cleanup_idle_pods_lem s j u =
      let (now, w) = env.utcnow s.storage.client.world in
      let limit = env.settings.pod_idle_timeout_seconds * 1000000 in
      let read = record s {
        storage = record s.storage { client = record s.storage.client { world = w } };
      } in
      let gone = idle_keys now limit s.pods in
      ground (
        arith,
        delete_all_lem gone read,
        get-remove_all gone j s.pods,
        any-idle_keys now limit j s.pods u,
      )

  evicts :
      (s : Manager W) (e : String × TerminalPod) (d : Dict TerminalPod)
      → s.pods ≡ e ∷ d
      → ((evict_oldest s).0 ≡ ok tt)
        × ((evict_oldest s).1.pods ≡ Dict.remove (oldest_from e d).0 s.pods)
  unfolding evict_oldest ◌>>=◌
  evicts s e d p = ground (arith, p, delete_pod_lem (oldest_from e d).0 s)

  evict_chosen :
      (s : Manager W) (pods : Dict TerminalPod)
      → s.pods ≡ pods
      → Distinct pods
      → pods ≢ []
      → (h : String) × (t : TerminalPod) × (Dict.get h pods ≡ some t)
        × Dict.Every (λ _ u. t.last_active_at ≤ u.last_active_at) pods
        × ((evict_oldest s).0 ≡ ok tt)
        × ((evict_oldest s).1.pods ≡ Dict.remove h s.pods)
  evict_chosen s [] p u n = absurd (n refl)
  evict_chosen s (e ∷ d) p u n =
      let o = oldest_from e d in
      let (done, left) = evicts s e d p in
      (o.0, o.1, oldest-get e d u, oldest_from-le e d, done, left)

  -- With some pod tracked and no key twice, eviction never raises and drops exactly one key: that of a tracked pod
  -- which no tracked pod was active before.
  pub evict_oldest_lem :
      (s : Manager W)
      → Distinct s.pods
      → s.pods ≢ []
      → (h : String) × (t : TerminalPod) × (Dict.get h s.pods ≡ some t)
        × Dict.Every (λ _ u. t.last_active_at ≤ u.last_active_at) s.pods
        × ((evict_oldest s).0 ≡ ok tt)
        × ((evict_oldest s).1.pods ≡ Dict.remove h s.pods)
  evict_oldest_lem s u n = evict_chosen s s.pods refl u n
