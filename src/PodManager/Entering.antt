-- ===== src/PodManager/Entering.antt =====
-- The first part of `get_or_create` up to its wait: the room it makes, and the pod it waits for.
use open_terminal_k8s_proxy.Base.{◌≡◌, refl, sym, subst, ap, ◌⊎◌, inl, inr, String, none, some}
use open_terminal_k8s_proxy.Base.Dict
use open_terminal_k8s_proxy.Base.Dict.{Dict, Distinct}
use open_terminal_k8s_proxy.Base.Exec.{
  Exn, ok, err, Exec, pure, on, ◌>>=◌, Preserves, preserving, Yields, Yields-then, Yields-bind,
  Yields-pure, Exec-cases,
}
use open_terminal_k8s_proxy.Kube.{Env}
use open_terminal_k8s_proxy.Models.{TerminalPod, running, create, user_id_to_hash}
use open_terminal_k8s_proxy.PodManager.{Manager}
use open_terminal_k8s_proxy.PodManager.Create.{make_room, new_pod, launch, reuse}
use open_terminal_k8s_proxy.PodManager.Creation.{
  IsNew, Tracks, Tracks-new_pod, Tracks-launch, IsNew-new_pod,
}
use open_terminal_k8s_proxy.PodManager.Spec.{Room, make_room-Room, clocked, limit}
use open_terminal_k8s_proxy.PodManager.Tasks.{Pending, Entered, done, waiting, prepare, enter}

-- The call waits for a new pod of the hash `h`.
pub record Awaits (h : String) (x : Entered) : Type 0 where
  pub call : Pending
  pub now_waits : x ≡ waiting call
  pub key : call.user_hash ≡ h
  pub new : IsNew h call.pod

module _ {W : Type 0} ⦃env : Env W⦄ where
  -- The new pod and what is asked of the cluster for it.
  abbrev begun : String → String → Exec (Manager W) Entered
  begun user_id h = do
    t ← new_pod user_id
    start ← launch t
    pure (waiting (record { user_hash = h; pod = t; start = start }))

  Tracks-begun :
      (d : Dict TerminalPod) (user_id h : String) → Preserves (Tracks d) (begun user_id h)
  Tracks-begun d user_id h = search (preserving, Tracks-new_pod, Tracks-launch)

  Awaits-begun :
      (user_id : String)
      → Yields {S = Manager W}
          (Awaits (user_id_to_hash env.codecs user_id))
          (begun user_id (user_id_to_hash env.codecs user_id))
  Awaits-begun user_id = Yields-then _ _ (IsNew-new_pod user_id) λ t new.
      Yields-bind _ _
        λ start. Yields-pure _ (record { call = _; now_waits = refl; key = refl; new = new })

  prepare-begun :
      (user_id h : String) (s : Manager W)
      → (make_room s).0 ≡ ok tt
      → prepare user_id h s ≡ begun user_id h (make_room s).1
  unfolding prepare ◌>>=◌
  prepare-begun user_id h s made = rw made refl

  -- There is room, and the call waits for its pod or has raised.
  pub prepare_lem :
      (user_id : String) (s : Manager W)
      → Distinct s.pods
      → Room (limit env) s.pods (prepare user_id (user_id_to_hash env.codecs user_id) s).1.pods
        × (((x : Entered) × Awaits (user_id_to_hash env.codecs user_id) x
              × ((prepare user_id (user_id_to_hash env.codecs user_id) s).0 ≡ ok x))
            ⊎ ((e : Exn) × ((prepare user_id (user_id_to_hash env.codecs user_id) s).0 ≡ err e)))
  prepare_lem user_id s u =
      let h = user_id_to_hash env.codecs user_id in
      let after = (make_room s).1 in
      let (made, room) = make_room-Room s u in
      let kept = ((Tracks-begun after.pods user_id h).at after (record { pods = refl })).pods in
      rw (prepare-begun user_id h s made) (
        subst (Room (limit env) s.pods) (sym kept) room,
        elim (Exec-cases (begun user_id h) after) [
          | inl (x, e) ↦
              inl (x, (Awaits-begun user_id).at after x (ap (λ r. r.0) e), ap (λ r. r.0) e)
          | inr (x, e) ↦ inr (x, ap (λ r. r.0) e)
        ],
      )

  pub enter_new :
      (user_id : String) (s : Manager W)
      → Dict.get (user_id_to_hash env.codecs user_id) s.pods ≡ none
      → enter user_id s ≡ prepare user_id (user_id_to_hash env.codecs user_id) (clocked s)
  unfolding enter create on ◌>>=◌
  enter_new user_id s new = rw new refl

  pub enter_known :
      (user_id : String) (s : Manager W) (t : TerminalPod)
      → Dict.get (user_id_to_hash env.codecs user_id) s.pods ≡ some t
      → t.state ≡ running
      → enter user_id s
        ≡ (reuse (user_id_to_hash env.codecs user_id) t >>= λ used. pure (done used)) (clocked s)
  unfolding enter create on ◌>>=◌
  enter_known user_id s t known runs = rw known (rw runs refl)
