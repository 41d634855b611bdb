-- ===== src/PodManager/Opening/Claims.antt =====
-- What is sent for the claims of a new pod.
use open_terminal_k8s_proxy.Base.{
  ◌≡◌, refl, String, Option, none, some, truthy, Option-cases, inl, inr, not, false,
}
use open_terminal_k8s_proxy.Base.Exec.{
  pure, modify, ◌>>=◌, ◌>>◌, Preserves, preserving, Preserves-bind, Preserves-if, Preserves-swallow,
  Preserves-pure,
}
use open_terminal_k8s_proxy.Config.{StorageMode, shared_rwo}
use open_terminal_k8s_proxy.Kube.{Client, Env, Request, RetryLaws}
use open_terminal_k8s_proxy.Kube.Methods
use open_terminal_k8s_proxy.Kube.Rules.{
  annotate_pvc-Preserves, get_pvc-Preserves, create_pvc-Preserves, list_terminal_pods-Preserves,
}
use open_terminal_k8s_proxy.Models.{TerminalPod}
use open_terminal_k8s_proxy.PodBuilder.Shared.{shared_pvc_name}
use open_terminal_k8s_proxy.PodManager.Create.{prepare_storage}
use open_terminal_k8s_proxy.PodManager.Requests.{truthy-some}
use open_terminal_k8s_proxy.Storage as Storage
use open_terminal_k8s_proxy.Storage.{
  is_shared_mode, is_per_user, ensure_shared_pvc, get_shared_pvc_node, touch_pvc, create_user_pvc,
}
use open_terminal_k8s_proxy.PodManager.Opening.Holds.{
  Keeps, ClaimRules, StorageHolds, ManagerHolds, StorageHolds-on_client, ManagerHolds-on_storage,
}
use open_terminal_k8s_proxy.PodManager.Opening.Kinds.{build_pvc_manifest-IsNamed}

module _ {W : Type 0} ⦃env : Env W⦄ (laws : RetryLaws env) (t : TerminalPod) {P : Client W → Type 0}
    {Q : Request → Type 0} (keeps : Keeps env P Q) (rules : ClaimRules t Q) where
  open_clock : Preserves P Storage.utcnow
  open_clock = record { at = λ c h. keeps.moving _ c h }

  open_touch :
      (name : String) → t.pvc_name ≡ some name → Preserves (StorageHolds P) (touch_pvc name)
  unfolding touch_pvc
  open_touch name e = Preserves-swallow _ (
      StorageHolds-on_client P _ (
        Preserves-bind _ _ open_clock
          (λ now. annotate_pvc-Preserves laws keeps.stable name _ (λ ns. rules.marks name ns _ e))))

  open_shared : Preserves (StorageHolds P) ensure_shared_pvc
  unfolding ensure_shared_pvc
  open_shared =
      Preserves-if (not (is_shared_mode env.settings.storage_mode)) (pure none) _
        (λ _. Preserves-pure _)
        (λ _.
          Preserves-bind _ _
            (StorageHolds-on_client P _ (
              get_pvc-Preserves laws keeps.stable shared_pvc_name
                (λ ns. rules.reads _ ns (inl refl))))
            (λ found. elim (Option-cases found) [
              | inr (pvc, there) ↦ rw there (Preserves-pure _)
              | inl gone ↦ rw gone (
                  Preserves-bind _ _
                    (StorageHolds-on_client P _ (
                      create_pvc-Preserves laws keeps.stable _ (λ ns.
                        rules.makes ns _
                          (inl (build_pvc_manifest-IsNamed shared_pvc_name _ _ _ _ _)))))
                    (λ _. Preserves-pure _))
            ]))

  -- The last part of `get_shared_pvc_node`, in every mode.
  open_node_in :
      (mode : StorageMode) (known : Option String)
      → Preserves {A = Option String} (StorageHolds P) (elim mode [
        | shared_rwo ↦ elim (truthy known) [
          | some node ↦ pure known
          | none ↦ do
            found ← Storage.on_client (Methods.get_shared_pvc_node shared_pvc_name)
            modify (λ s. record s { shared_pvc_node = found })
            pure found
        ]
        | _ ↦ pure none
      ])
  unfolding Methods.get_shared_pvc_node
  open_node_in shared_rwo known = elim (Option-cases (truthy known)) [
    | inl e ↦ rw e (
        Preserves-bind _ _
          (StorageHolds-on_client P _ (
            Preserves-bind _ _ (list_terminal_pods-Preserves laws keeps.stable rules.lists)
              (λ pods. Preserves-pure _)))
          (λ found.
            Preserves-bind _ _
              (unfold modify in (record { at = λ s h. record { client = h.client } }))
              (λ _. Preserves-pure _)))
    | inr (node, e) ↦ rw e (Preserves-pure _)
  ]
  open_node_in _ known = Preserves-pure _

  open_node : Preserves (StorageHolds P) get_shared_pvc_node
  unfolding get_shared_pvc_node
  open_node = Preserves-bind _ _ (search preserving) (open_node_in env.settings.storage_mode)

  open_claim :
      (name hash : String)
      → t.pvc_name ≡ some name
      → Preserves (StorageHolds P) (create_user_pvc name hash)
  unfolding create_user_pvc
  open_claim name hash e =
      Preserves-if (not (is_per_user env.settings.storage_mode)) (pure false) _
        (λ _. Preserves-pure _)
        (λ _.
          Preserves-bind _ _
            (StorageHolds-on_client P _
              (get_pvc-Preserves laws keeps.stable name (λ ns. rules.reads name ns (inr e))))
            (λ found. elim (Option-cases found) [
              | inr (pvc, there) ↦
                  rw there (Preserves-bind _ _ (open_touch name e) (λ _. Preserves-pure _))
              | inl gone ↦ rw gone (
                  Preserves-bind _ _ (StorageHolds-on_client P _ open_clock) (λ now.
                    Preserves-bind _ _
                      (StorageHolds-on_client P _ (
                        create_pvc-Preserves laws keeps.stable _ (λ ns.
                          rules.makes ns _
                            (inr (name, e, build_pvc_manifest-IsNamed name _ _ _ _ _)))))
                      (λ _. Preserves-pure _)))
            ]))

  pub open_storage : Preserves (ManagerHolds P) (prepare_storage t)
  unfolding prepare_storage
  open_storage =
      let shared =
        Preserves-if (is_shared_mode env.settings.storage_mode) _ _
          (λ _. ManagerHolds-on_storage P _ open_shared) (λ _. Preserves-pure none) in
      let node = ManagerHolds-on_storage P _ open_node in
      elim (Option-cases (truthy t.pvc_name)) [
        | inl e ↦
            rw (e, prepare_storage)
              (Preserves-bind _ _ shared (λ _.
                Preserves-bind _ _ node
                  (λ found. Preserves-bind _ _ (Preserves-pure _) (λ _. Preserves-pure found))))
        | inr (name, e) ↦
            rw (e, prepare_storage)
              (Preserves-bind _ _ shared (λ _. Preserves-bind _ _ node (λ found.
                Preserves-bind _ _
                  (Preserves-if (is_per_user env.settings.storage_mode) _ _
                    (λ _.
                      ManagerHolds-on_storage P _
                        (open_claim name t.user_hash (truthy-some t.pvc_name name e)))
                    (λ _. Preserves-pure false))
                  (λ _. Preserves-pure found))))
      ]
