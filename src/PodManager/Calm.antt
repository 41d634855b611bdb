-- ===== src/PodManager/Calm.antt =====
-- The invariant of the manager while a call waits for its pod: the pods stay sound, the pod that is
-- awaited has the names of its key, and the room made for it stays free.
use open_terminal_k8s_proxy.Base.{
  ℕ, ◌+◌, ◌≤◌, max, ◌≡◌, refl, sym, subst, ap, ◌⊎◌, ◌∙◌, inl, inr, String, Option, none, some, List,
  [], ◌∷◌, length, arith, Option-cases,
}
use open_terminal_k8s_proxy.Base.Dict
use open_terminal_k8s_proxy.Base.Dict.{Dict, Every-get, length-put-le}
use open_terminal_k8s_proxy.Base.Exec.{
  Exn, Result, ok, err, Exec, pure, modify, ◌>>=◌, Preserves, Preserves-swallow, Exec-cases,
}
use open_terminal_k8s_proxy.Kube.{Env}
use open_terminal_k8s_proxy.Kube.Ready.{Ready}
use open_terminal_k8s_proxy.Models.{TerminalPod, user_id_to_hash}
use open_terminal_k8s_proxy.PodManager.{Manager}
use open_terminal_k8s_proxy.PodManager.Create.{reuse, land}
use open_terminal_k8s_proxy.PodManager.Creation.{
  IsOwn, IsNew, Tracks-land, IsStarted-land, IsStarted-IsOwn,
}
use open_terminal_k8s_proxy.PodManager.Entering.{Awaits, prepare_lem, enter_new, enter_known}
use open_terminal_k8s_proxy.PodManager.Fewer.{
  AtMost, AtMost-on_client, AtMost-cleanup_idle_pods, AtMost-check_pod_health, AtMost-pvc_cleanup,
}
use open_terminal_k8s_proxy.PodManager.History.{start, perform_all, run-IsSound}
use open_terminal_k8s_proxy.PodManager.Interleaving.{
  System, Round, cleanup, health, pvcs, Event, arrives, polls, resumes, rounds, turn, waits,
  entered, step, steps,
}
use open_terminal_k8s_proxy.PodManager.Spec.{IsSound, Room, limit, clocked, call_known, reuse_lem}
use open_terminal_k8s_proxy.PodManager.Tasks.{Pending, Entered, done, enter, leave}
use open_terminal_k8s_proxy.PodManager.Tracking.{
  Room-Distinct, Room-Every, Room-length, get_or_create-IsSound, get_or_create-capacity,
}
use open_terminal_k8s_proxy.PodManager.Upkeep.{
  IsSound-on_client, IsSound-put_pod, IsSound-same_pods, IsSound-check_pod_health,
  IsSound-cleanup_idle_pods, IsSound-pvc_cleanup,
}

-- The places that the waiting call will take.
abbrev pub owed : Option Pending → ℕ
owed none = 0
owed (some p) = 1

abbrev pub IsPromised : Option Pending → Type 0
IsPromised none = Unit
IsPromised (some p) = IsNew p.user_hash p.pod

-- The tracked pods are sound, the awaited pod has the names of its key, and together they are at
-- most `n`.
pub record IsCalm {W : Type 0} (n : ℕ) (y : System W) : Type 0 where
  pub sound : IsSound y.manager
  pub promised : IsPromised y.pending
  pub within : length y.manager.pods + owed y.pending ≤ n

module _ {W : Type 0} ⦃env : Env W⦄ where
  IsSound-turn : (r : Round) → Preserves {S = Manager W} IsSound (turn r)
  unfolding turn
  IsSound-turn cleanup = Preserves-swallow _ IsSound-cleanup_idle_pods
  IsSound-turn health = Preserves-swallow _ IsSound-check_pod_health
  IsSound-turn pvcs = Preserves-swallow _ IsSound-pvc_cleanup

  AtMost-turn : (n : ℕ) (r : Round) → Preserves {S = Manager W} (AtMost n) (turn r)
  unfolding turn
  AtMost-turn n cleanup = Preserves-swallow _ (AtMost-cleanup_idle_pods n)
  AtMost-turn n health = Preserves-swallow _ (AtMost-check_pod_health n)
  AtMost-turn n pvcs = Preserves-swallow _ (AtMost-pvc_cleanup n)

  -- A pod that has landed runs, and nothing else is tracked than before.
  IsSound-leave :
      (p : Pending) (ready : Option Ready)
      → IsNew p.user_hash p.pod
      → (s : Manager W) → IsSound s
      → IsSound (leave p ready s).1 × (length (leave p ready s).1.pods ≤ length s.pods + 1)
  unfolding leave modify ◌>>=◌
  IsSound-leave p ready new s v =
      let kept = ((Tracks-land s.pods p.pod p.start ready).at s (record { pods = refl })).pods in
      let after = (land p.pod p.start ready s).1 in
      let sound = IsSound-same_pods s after kept v in
      elim (Exec-cases (land p.pod p.start ready) s) [
        | inl (t, e) ↦
            let own =
              IsStarted-IsOwn p.user_hash p.pod t new
                ((IsStarted-land p.pod p.start ready).at s t (ap (λ r. r.0) e)) in
            rw e (
              (IsSound-put_pod p.user_hash t own).at after sound,
              omega (arith, length-put-le p.user_hash t after.pods, ap length kept),
            )
        | inr (x, e) ↦ rw e (sound, omega (arith, ap length kept))
      ]

  -- A pod that runs is given back at once.
  reuse_ends :
      (h : String) (t : TerminalPod) (s : Manager W)
      → (waits ((reuse h t >>= λ used. pure (done used)) s).0 ≡ none)
        × (((reuse h t >>= λ used. pure (done used)) s).1 ≡ (reuse h t s).1)
  unfolding ◌>>=◌
  reuse_ends h t s = let (now, o, e) = reuse_lem h t s in rw o (refl, refl)

  IsCalm-prepared :
      (n : ℕ) (h : String) (s : Manager W) (m : Result Entered × Manager W)
      → max 1 (limit env) ≤ n
      → IsSound s
      → length s.pods ≤ n
      → Room (limit env) s.pods m.1.pods
      → ((x : Entered) × Awaits h x × (m.0 ≡ ok x)) ⊎ ((e : Exn) × (m.0 ≡ err e))
      → IsCalm n (entered m)
  IsCalm-prepared n h s m big v few room (inl (x, w, e)) =
      let q : waits m.0 ≡ some w.call = ap waits e ∙ ap (λ z. waits (ok z)) w.now_waits in
      record {
        sound = record { distinct = Room-Distinct room v.distinct; own = Room-Every room v.own };
        promised = rw q (subst (λ k. IsNew k w.call.pod) (sym w.key) w.new);
        within = omega (arith, ap owed q, (Room-length room).0, big, few);
      }
  IsCalm-prepared n h s m big v few room (inr (x, e)) = record {
    sound = record { distinct = Room-Distinct room v.distinct; own = Room-Every room v.own };
    promised = rw e tt;
    within = omega (arith, ap (λ r. owed (waits r)) e, (Room-length room).1, few);
  }

  IsCalm-enter :
      (n : ℕ) (user_id : String) (s : Manager W)
      → max 1 (limit env) ≤ n
      → IsSound s
      → length s.pods ≤ n
      → IsCalm n (entered (enter user_id s))
  IsCalm-enter n user_id s big v few =
      let h = user_id_to_hash env.codecs user_id in
      elim (Option-cases (Dict.get h s.pods)) [
        | inl new ↦
            let v' = IsSound-same_pods s (clocked s) refl v in
            let (room, ends) = prepare_lem user_id (clocked s) v.distinct in
            rw (enter_new user_id s new) (IsCalm-prepared n h (clocked s) _ big v' few room ends)
        | inr (t, known) ↦
            let runs = (Every-get IsOwn h t s.pods v.own known).runs in
            let (ended, same) = reuse_ends h t (clocked s) in
            let call = call_known user_id s t known runs in
            let sound = get_or_create-IsSound user_id s v in
            let few' = get_or_create-capacity user_id s v in
            rw (enter_known user_id s t known runs) (record {
              sound = rw (same, sym call) sound;
              promised = rw ended tt;
              within =
                  rw (same, ended) (omega (arith, ap (λ r. length r.1.pods) call, few', few, big));
            })
      ]

  -- What keeps the pods sound and tracks no new one keeps the invariant.
  IsCalm-same :
      (n : ℕ) (y : System W) (m : Exec (Manager W) Unit)
      → Preserves IsSound m
      → Preserves (AtMost (length y.manager.pods)) m
      → IsCalm n y
      → IsCalm n (record y { manager = (m y.manager).1 })
  IsCalm-same n y m sound few c = record {
    sound = sound.at y.manager c.sound;
    promised = c.promised;
    within = omega (arith, (few.at y.manager (record { count = omega arith })).count, c.within);
  }

  IsCalm-event :
      (n : ℕ) (e : Event W) (s : Manager W) (w : Option Pending)
      → max 1 (limit env) ≤ n
      → IsCalm n (record { manager = s; pending = w })
      → IsCalm n (step e (record { manager = s; pending = w }))
  unfolding step
  IsCalm-event n (rounds r) s w big c =
      IsCalm-same n (record { manager = s; pending = w }) _ (IsSound-turn r) (AtMost-turn _ r) c
  IsCalm-event n (polls m) s none big c = c
  IsCalm-event n (polls m) s (some p) big c =
      IsCalm-same n (record { manager = s; pending = some p }) _ (IsSound-on_client m)
        (AtMost-on_client _ m) c
  IsCalm-event n (resumes r) s none big c = c
  IsCalm-event n (resumes (err x)) s (some p) big c = record {
    sound = c.sound;
    promised = tt;
    within = omega (arith, c.within);
  }
  IsCalm-event n (resumes (ok ready)) s (some p) big c =
      let (sound, few) = IsSound-leave p ready c.promised s c.sound in
      record { sound = sound; promised = tt; within = omega (arith, few, c.within) }
  IsCalm-event n (arrives user_id) s none big c =
      IsCalm-enter n user_id s big c.sound (omega (arith, c.within))
  IsCalm-event n (arrives user_id) s (some p) big c = c

  IsCalm-steps :
      (n : ℕ) (es : List (Event W)) (y : System W)
      → max 1 (limit env) ≤ n
      → IsCalm n y
      → IsCalm n (steps es y)
  unfolding steps
  IsCalm-steps n [] y big c = c
  IsCalm-steps n (e ∷ es) y big c =
      IsCalm-steps n es (step e y) big (IsCalm-event n e y.manager y.pending big c)

  -- After the start with nothing tracked and any sequence of calls, polls and ends of their waits, and
  -- rounds of the background loops between them, whatever the cluster answers: the tracked pods are
  -- sound, an awaited pod has the names of its key, and the tracked and the awaited pods are at most
  -- `max_concurrent_pods`, or one if that is 0, or as many as the start took over if they are more.
  pub run-IsCalm :
      (es : List (Event W)) (s : Manager W)
      → s.pods ≡ []
      → IsCalm
          (max (length (start s).pods) (max 1 env.settings.max_concurrent_pods))
          (steps es (record { manager = start s; pending = none }))
  unfolding perform_all
  run-IsCalm es s p =
      IsCalm-steps _ es _ (omega arith)
        (record { sound = run-IsSound [] s p; promised = tt; within = omega arith })
