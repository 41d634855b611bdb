-- ===== src/PodManager/Interleaving.antt =====
-- The manager as the event loop runs it: one call of `get_or_create` may wait for its pod, with the
-- lock held, while rounds of the background loops run.
use open_terminal_k8s_proxy.Base.{Option, none, some, String, List, [], ◌∷◌}
use open_terminal_k8s_proxy.Base.Exec.{Result, ok, err, Exec, swallow}
use open_terminal_k8s_proxy.Kube.{Client, Env}
use open_terminal_k8s_proxy.Kube.Ready.{Ready}
use open_terminal_k8s_proxy.PodManager.{Manager, on_client}
use open_terminal_k8s_proxy.PodManager.Methods.{cleanup_idle_pods, check_pod_health, pvc_cleanup}
use open_terminal_k8s_proxy.PodManager.Tasks.{Pending, Entered, done, waiting, enter, leave}

-- The manager and the call that waits.
pub record System (W : Type 0) : Type 0 where
  pub manager : Manager W
  pub pending : Option Pending

pub data Round : Type 0 where
  cleanup health pvcs : Round

-- What happens next: a user's call, which goes on only when the lock is free; requests to the
-- cluster by the call that waits; the end of its wait, with an answer or an exception; a
-- background round.
pub data Event (W : Type 0) : Type 0 where
  arrives : String → Event W
  polls : Exec (Client W) Unit → Event W
  resumes : Result (Option Ready) → Event W
  rounds : Round → Event W

-- The call that waits after the first part of a call.
abbrev pub waits : Result Entered → Option Pending
waits (ok (waiting p)) = some p
waits (ok (done t)) = none
waits (err e) = none

module _ {W : Type 0} ⦃env : Env W⦄ where
  unfoldable pub turn : Round → Exec (Manager W) Unit
  turn cleanup = swallow cleanup_idle_pods
  turn health = swallow check_pod_health
  turn pvcs = swallow pvc_cleanup

  abbrev pub entered : Result Entered × Manager W → System W
  entered (r, s) = record { manager = s; pending = waits r }

  -- The end of the wait: an exception leaves the call at once.
  abbrev pub left : Pending → Result (Option Ready) → Manager W → Manager W
  left p (ok ready) s = (leave p ready s).1
  left p (err e) s = s

  -- With no call that waits there is nothing to poll and nothing to resume.
  unfoldable pub step : Event W → System W → System W
  step (rounds r) y = record y { manager = (turn r y.manager).1 }
  step (polls m) y = elim y.pending [
    | none ↦ y
    | some p ↦ record y { manager = (on_client m y.manager).1 }
  ]
  step (resumes r) y = elim y.pending [
    | none ↦ y
    | some p ↦ record { manager = left p r y.manager; pending = none }
  ]
  step (arrives user_id) y = elim y.pending [
    | none ↦ entered (enter user_id y.manager)
    | some p ↦ y
  ]

  unfoldable pub steps : List (Event W) → System W → System W
  steps [] y = y
  steps (e ∷ es) y = steps es (step e y)
