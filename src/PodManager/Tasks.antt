-- ===== src/PodManager/Tasks.antt =====
-- `get_or_create` with the wait for the pod as a point where other tasks run. Until it has ended, the
-- call holds the lock, so no other call gets further than its hash; the background rounds take
-- no lock.
use open_terminal_k8s_proxy.Base.{
  ℕ, ◌≡◌, sym, ◌∙◌, String, Option, none, some, Bool-cases, inl, inr, if◌then◌else◌,
}
use open_terminal_k8s_proxy.Base.Dict
use open_terminal_k8s_proxy.Base.Exec.{
  Exec, pure, gets, ◌>>=◌, ◌>>◌, bind_assoc, bind_cong, bind_pure,
}
use open_terminal_k8s_proxy.Kube.{Env}
use open_terminal_k8s_proxy.Kube.Ready.{Ready}
use open_terminal_k8s_proxy.Models.{TerminalPod, create}
use open_terminal_k8s_proxy.PodManager.{Manager, is_running, on_client}
use open_terminal_k8s_proxy.PodManager.Create.{
  reuse, discard, make_room, new_pod, launch, await_pod, land, create_pod_resources, fresh, build,
  make, get_or_create,
}
use open_terminal_k8s_proxy.PodManager.Methods.{put_pod}
use open_terminal_k8s_proxy.Storage.{utcnow}

-- A call that waits for its pod, and what it has in its local variables.
pub record Pending : Type 0 where
  pub user_hash : String
  pub pod : TerminalPod
  pub start : ℕ

pub data Entered : Type 0 where
  done : TerminalPod → Entered
  waiting : Pending → Entered

module _ {W : Type 0} ⦃env : Env W⦄ where
  unfoldable pub prepare : String → String → Exec (Manager W) Entered
  prepare user_id user_hash = do
    make_room
    t ← new_pod user_id
    start ← launch t
    pure (waiting (record { user_hash = user_hash; pod = t; start = start }))

  -- The call up to its wait, or to its end.
  unfoldable pub enter : String → Exec (Manager W) Entered
  enter user_id = do
    now ← on_client utcnow
    let user_hash = (create env.codecs now user_id "").user_hash
    found ← gets (λ s. Dict.get user_hash s.pods)
    elim found [
      | none ↦ prepare user_id user_hash
      | some t ↦
          if is_running t.state
          then (do used ← reuse user_hash t; pure (done used))
          else do discard user_hash t; prepare user_id user_hash
    ]

  -- And from the wait on.
  unfoldable pub leave : Pending → Option Ready → Exec (Manager W) TerminalPod
  leave p ready = do t ← land p.pod p.start ready; put_pod p.user_hash t; pure t

  unfoldable pub conclude : Entered → Exec (Manager W) TerminalPod
  conclude (done t) = pure t
  conclude (waiting p) = do ready ← await_pod p.pod; leave p ready

  -- The pod with its resources, put under its key.
  abbrev track : String → TerminalPod → Exec (Manager W) TerminalPod
  track h t = put_pod h t >> pure t

  launch_parts :
      (h : String) (t : TerminalPod) (s : Manager W)
      → (create_pod_resources t >>= track h) s
        ≡ ((launch t >>= λ start. pure (waiting (record { user_hash = h; pod = t; start = start })))
              >>= conclude)
            s
  unfolding create_pod_resources conclude leave ◌>>=◌
  launch_parts h t s =
      bind_assoc (launch t) (λ start. await_pod t >>= λ ready. land t start ready) (track h) s
      ∙ bind_cong (launch t) _ _ s
          (λ start s'. bind_assoc (await_pod t) (λ ready. land t start ready) (track h) s')
      ∙ sym (bind_assoc (launch t) _ conclude s)

  make_parts :
      (user_id h : String) (s : Manager W) → make user_id h s ≡ (prepare user_id h >>= conclude) s
  unfolding make build fresh prepare
  make_parts user_id h s =
      bind_cong make_room _ _ s (λ _ s'.
        bind_assoc (new_pod user_id) (λ t. create_pod_resources t) (track h) s'
        ∙ bind_cong (new_pod user_id) _ _ s' (λ t s''. launch_parts h t s'')
        ∙ sym (bind_assoc (new_pod user_id) _ conclude s'))
      ∙ sym (bind_assoc make_room _ conclude s)

  reuse_parts :
      (h : String) (t : TerminalPod) (s : Manager W)
      → reuse h t s ≡ ((reuse h t >>= λ used. pure (done used)) >>= conclude) s
  unfolding conclude ◌>>=◌
  reuse_parts h t s =
      sym (bind_pure (reuse h t) s)
      ∙ sym (bind_assoc (reuse h t) (λ used. pure (done used)) conclude s)

  -- The two methods once they have looked for the user's pod.
  abbrev whole : String → String → Option TerminalPod → Exec (Manager W) TerminalPod
  whole user_id h found = elim found [
    | none ↦ make user_id h
    | some t ↦ if is_running t.state then reuse h t else do discard h t; make user_id h
  ]

  abbrev first_part : String → String → Option TerminalPod → Exec (Manager W) Entered
  first_part user_id h found = elim found [
    | none ↦ prepare user_id h
    | some t ↦
        if is_running t.state
        then (do used ← reuse h t; pure (done used))
        else do discard h t; prepare user_id h
  ]

  whole_parts :
      (user_id h : String) (found : Option TerminalPod) (s : Manager W)
      → whole user_id h found s ≡ (first_part user_id h found >>= conclude) s
  whole_parts user_id h none s = make_parts user_id h s
  whole_parts user_id h (some t) s = elim (Bool-cases (is_running t.state)) [
    | inl runs ↦ rw runs (reuse_parts h t s)
    | inr stopped ↦ rw stopped (
        bind_cong (discard h t) _ _ s (λ _ s'. make_parts user_id h s')
        ∙ sym (bind_assoc (discard h t) _ conclude s))
  ]

  -- A call during whose wait nothing else runs is `get_or_create`.
  get_or_create_parts :
      (user_id : String) (s : Manager W) → get_or_create user_id s ≡ (enter user_id >>= conclude) s
  unfolding get_or_create enter
  get_or_create_parts user_id s =
      bind_cong (on_client utcnow) _ _ s (λ now s'.
        let h = (create env.codecs now user_id "").user_hash in
        bind_cong (gets (λ m. Dict.get h m.pods)) _ _ s'
          (λ found s''. whole_parts user_id h found s'')
        ∙ sym (bind_assoc (gets (λ m. Dict.get h m.pods)) (first_part user_id h) conclude s'))
      ∙ sym (bind_assoc (on_client utcnow) _ conclude s)
