-- ===== src/PodManager/Creation.antt =====
-- Creating a pod's resources: it tracks nothing, and what it returns runs.
use open_terminal_k8s_proxy.Base.{
  ℕ, ◌≡◌, ◌≢◌, refl, sym, subst, String, ◌<>◌, Option, none, some, truthy, if◌then◌else◌, arith,
  Option-cases, ◌⊎◌, inl, inr, ap,
}
use open_terminal_k8s_proxy.Base.Dict
use open_terminal_k8s_proxy.Base.Dict.{Dict}
use open_terminal_k8s_proxy.Base.Exec.{
  Result, ok, err, Exec, modify, on, ◌>>=◌, Preserves, preserving, Yields, yields_rules,
  Yields-pure, Yields-bind, Yields-mono, Yields-then, Exec-cases, Exn,
}
use open_terminal_k8s_proxy.Codecs.{Codecs}
use open_terminal_k8s_proxy.Config.{StorageMode}
use open_terminal_k8s_proxy.Kube.{Client, Env}
use open_terminal_k8s_proxy.Kube.Ready.{Ready}
use open_terminal_k8s_proxy.Models.{TerminalPod, running, create, user_id_to_hash}
use open_terminal_k8s_proxy.PodManager.{Manager, on_client, on_storage}
use open_terminal_k8s_proxy.PodManager.Create.{
  without_claim, lift, prepare_storage, settle, launch, await_pod, land, create_pod_resources,
  new_pod, fresh, build,
}
use open_terminal_k8s_proxy.Storage.{Storage}

-- The tracked pods are `d`.
pub record Tracks {W : Type 0} (d : Dict TerminalPod) (s : Manager W) : Type 0 where
  pub pods : s.pods ≡ d

-- A tracked pod runs and has the names of its key.
pub record IsOwn (h : String) (t : TerminalPod) : Type 0 where
  pub runs : t.state ≡ running
  pub hash : t.user_hash ≡ h
  pub service : t.service_name ≡ "terminal-" <> h
  pub secret : t.secret_name ≡ "terminal-secret-" <> h

-- What creation makes of a new pod `t`: it is running, at an address that is not empty.
pub record IsStarted (t u : TerminalPod) : Type 0 where
  pub started : u ≡ record t { state = running; pod_ip = u.pod_ip }
  pub address : truthy u.pod_ip ≢ none

-- The names of a pod of the hash `h`.
pub record IsNew (h : String) (t : TerminalPod) : Type 0 where
  pub hash : t.user_hash ≡ h
  pub service : t.service_name ≡ "terminal-" <> h
  pub secret : t.secret_name ≡ "terminal-secret-" <> h

pub IsStarted-IsOwn : (h : String) (t u : TerminalPod) → IsNew h t → IsStarted t u → IsOwn h u
IsStarted-IsOwn h t u new started =
    subst (IsOwn h) (sym started.started)
      (record { runs = refl; hash = new.hash; service = new.service; secret = new.secret })

create-IsNew :
    (lib : Codecs) (mode : StorageMode) (now : ℕ) (user_id key : String)
    → IsNew (user_id_to_hash lib user_id) (without_claim mode (create lib now user_id key))
unfolding create
create-IsNew lib StorageMode.none now user_id key = record {
  hash = refl;
  service = refl;
  secret = refl;
}
create-IsNew lib _ now user_id key = record { hash = refl; service = refl; secret = refl }

module _ {W : Type 0} (d : Dict TerminalPod) where
  Tracks-on_client : {A : Type 0} (m : Exec (Client W) A) → Preserves (Tracks d) (on_client m)
  unfolding on
  Tracks-on_client m = record { at = λ s h. record { pods = h.pods } }

  Tracks-on_storage : {A : Type 0} (m : Exec (Storage W) A) → Preserves (Tracks d) (on_storage m)
  unfolding on
  Tracks-on_storage m = record { at = λ s h. record { pods = h.pods } }

  Tracks-startup :
      (f : Manager W → Dict ℕ)
      → Preserves (Tracks d) (modify (λ s. record s { startup_durations = f s }))
  unfolding modify
  Tracks-startup f = record { at = λ s h. record { pods = h.pods } }

  Tracks-lift : {A : Type 0} (r : Result A) → Preserves (Tracks {W = W} d) (lift r)
  Tracks-lift r = record { at = λ s h. h }

ruleset tracks_rules =
    (preserving, Tracks-on_client, Tracks-on_storage, Tracks-startup, Tracks-lift)

module _ {W : Type 0} ⦃env : Env W⦄ (d : Dict TerminalPod) where
  Tracks-settle : (t : TerminalPod) (r : Option Ready) → Preserves (Tracks {W = W} d) (settle t r)
  unfolding settle
  Tracks-settle t none = search tracks_rules
  Tracks-settle t (some (b, ip)) = elim (Option-cases (if b then truthy ip else none)) [
    | inl e ↦ rw (e, settle) (search tracks_rules depth 9)
    | inr (a, e) ↦ rw (e, settle) (search tracks_rules)
  ]

  Tracks-prepare_storage : (t : TerminalPod) → Preserves (Tracks {W = W} d) (prepare_storage t)
  unfolding prepare_storage
  Tracks-prepare_storage t = elim (Option-cases (truthy t.pvc_name)) [
    | inl e ↦ rw e (search tracks_rules depth 9)
    | inr (a, e) ↦ rw e (search tracks_rules depth 9)
  ]

  pub Tracks-launch : (t : TerminalPod) → Preserves (Tracks {W = W} d) (launch t)
  unfolding launch
  Tracks-launch t = search (tracks_rules, Tracks-prepare_storage) depth 12

  Tracks-await_pod : (t : TerminalPod) → Preserves (Tracks {W = W} d) (await_pod t)
  unfolding await_pod
  Tracks-await_pod t = search tracks_rules

  pub Tracks-land :
      (t : TerminalPod) (start : ℕ) (ready : Option Ready)
      → Preserves (Tracks {W = W} d) (land t start ready)
  unfolding land
  Tracks-land t start ready = search (tracks_rules, Tracks-settle)

  Tracks-create_pod_resources :
      (t : TerminalPod) → Preserves (Tracks {W = W} d) (create_pod_resources t)
  unfolding create_pod_resources
  Tracks-create_pod_resources t =
      search (tracks_rules, Tracks-launch, Tracks-await_pod, Tracks-land)

  pub Tracks-new_pod : (user_id : String) → Preserves (Tracks {W = W} d) (new_pod user_id)
  unfolding new_pod
  Tracks-new_pod user_id = search tracks_rules

  Tracks-fresh : (user_id : String) → Preserves (Tracks {W = W} d) (fresh user_id)
  unfolding fresh
  Tracks-fresh user_id = search (tracks_rules, Tracks-new_pod, Tracks-create_pod_resources)

module _ {W : Type 0} ⦃env : Env W⦄ where
  IsStarted-settle :
      (t : TerminalPod) (r : Option Ready) → Yields {S = Manager W} (IsStarted t) (settle t r)
  unfolding settle
  IsStarted-settle t none = search yields_rules
  IsStarted-settle t (some (b, ip)) = elim (Option-cases (if b then truthy ip else none)) [
    | inl e ↦ rw (e, settle) (search yields_rules depth 7)
    | inr (a, e) ↦
        rw (e, settle) (Yields-pure _ (record { started = refl; address = ground arith }))
  ]

  pub IsStarted-land :
      (t : TerminalPod) (start : ℕ) (ready : Option Ready)
      → Yields {S = Manager W} (IsStarted t) (land t start ready)
  unfolding land
  IsStarted-land t start ready = search (yields_rules, IsStarted-settle)

  -- If the resources are created, the pod is the given one, now running at an address.
  pub create_pod_resources-IsStarted :
      (t : TerminalPod) → Yields {S = Manager W} (IsStarted t) (create_pod_resources t)
  unfolding create_pod_resources
  create_pod_resources-IsStarted t = search (yields_rules, IsStarted-land)

  -- A pod whose resources are still to be made.
  pub IsNew-new_pod :
      (user_id : String)
      → Yields {S = Manager W} (IsNew (user_id_to_hash env.codecs user_id)) (new_pod user_id)
  unfolding new_pod
  IsNew-new_pod user_id = Yields-bind _ _ λ key.
      Yields-bind _ _
        λ now. Yields-pure _ (create-IsNew env.codecs env.settings.storage_mode now user_id key)

  IsOwn-fresh :
      (user_id : String)
      → Yields {S = Manager W} (IsOwn (user_id_to_hash env.codecs user_id)) (fresh user_id)
  unfolding fresh
  IsOwn-fresh user_id = Yields-then _ _ (IsNew-new_pod user_id) λ t new.
      Yields-mono _ (λ u started. IsStarted-IsOwn _ t u new started)
        (create_pod_resources-IsStarted t)

  -- A new pod is tracked under the user's hash if its creation succeeds, and the tracked pods are
  -- as they were if it fails.
  pub build_lem :
      (user_id h : String) (s : Manager W)
      → ((t : TerminalPod) × ((build user_id h s).0 ≡ ok t)
          × ((build user_id h s).1.pods ≡ Dict.put h t s.pods)
          × IsOwn (user_id_to_hash env.codecs user_id) t)
        ⊎ ((e : Exn) × ((build user_id h s).0 ≡ err e) × ((build user_id h s).1.pods ≡ s.pods))
  unfolding build ◌>>=◌
  build_lem user_id h s =
      let kept = ((Tracks-fresh s.pods user_id).at s (record { pods = refl })).pods in
      elim (Exec-cases (fresh user_id) s) [
        | inl (t, e) ↦
            let own = (IsOwn-fresh user_id).at s t (ap (λ x. x.0) e) in
            inl (t, ground (arith, e), ground (arith, e, kept), own)
        | inr (x, e) ↦ inr (x, ground (arith, e), ground (arith, e, kept))
      ]
