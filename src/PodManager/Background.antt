-- ===== src/PodManager/Background.antt =====
-- The tasks of the three background loops: made by `PodManager.start`, ended by `PodManager.stop`.
-- What else the event loop runs is a type of events `E` on a state `S`, of which some are rounds.
use open_terminal_k8s_proxy.Base.{
  ◌≡◌, refl, ap, Bool, true, false, Option, none, some, List, [], ◌∷◌, ◌++◌, filter, if◌then◌else◌,
  Bool-cases, inl, inr,
}
use open_terminal_k8s_proxy.PodManager.Interleaving.{Round, cleanup, health, pvcs}

-- An asyncio task: its loop sleeps or runs, or has been left by a `CancelledError`. A loop logs any
-- other exception of a round and goes on.
pub data TaskState : Type 0 where
  alive ended : TaskState

pub record Background : Type 0 where
  pub cleanup_task : Option TaskState
  pub health_check_task : Option TaskState
  pub pvc_cleanup_task : Option TaskState

-- `__init__`, and the tasks that `start` makes.
abbrev pub no_tasks : Background
no_tasks = record { cleanup_task = none; health_check_task = none; pvc_cleanup_task = none }

abbrev pub all_tasks : Background
all_tasks = record {
  cleanup_task = some alive;
  health_check_task = some alive;
  pvc_cleanup_task = some alive;
}

-- After the first, the second and the last cancellation of `stop`.
abbrev pub no_cleanup : Background
no_cleanup = record all_tasks { cleanup_task = some ended }

abbrev pub only_pvcs : Background
only_pvcs = record no_cleanup { health_check_task = some ended }

abbrev pub all_ended : Background
all_ended = record only_pvcs { pvc_cleanup_task = some ended }

abbrev pub task_of : Round → Background → Option TaskState
task_of cleanup b = b.cleanup_task
task_of health b = b.health_check_task
task_of pvcs b = b.pvc_cleanup_task

abbrev is_alive : Option TaskState → Bool
is_alive (some alive) = true
is_alive (some ended) = false
is_alive none = false

-- `task.cancel()` and the wait for it: the loop is asleep whenever another task runs, and the
-- `CancelledError` meets it there; an ended task stays as it is.
unfoldable pub cancelled : Option TaskState → Option TaskState
cancelled none = none
cancelled (some t) = some ended

-- Whether a loop runs the round of an event, if it is one.
abbrev pub allows : Background → Option Round → Bool
allows b none = true
allows b (some r) = is_alive (task_of r b)

allows-all_tasks : (o : Option Round) → allows all_tasks o ≡ true
allows-all_tasks none = refl
allows-all_tasks (some cleanup) = refl
allows-all_tasks (some health) = refl
allows-all_tasks (some pvcs) = refl

pub record Live (S : Type 0) : Type 0 where
  pub state : S
  pub tasks : Background

module _ {S E : Type 0} (round_of : E → Option Round) (step : E → S → S) where
  -- A task that has ended runs no round.
  unfoldable pub happen : E → Live S → Live S
  happen e y = if allows y.tasks (round_of e) then record y { state = step e y.state } else y

  unfoldable pub happen_all : List E → Live S → Live S
  happen_all [] y = y
  happen_all (e ∷ es) y = happen_all es (happen e y)

  -- `PodManager.stop`, with the events at each of its three waits.
  unfoldable pub stop : List E → List E → List E → Live S → Live S
  stop first second third y =
      let a = record y {
        tasks = record y.tasks { cleanup_task = cancelled y.tasks.cleanup_task };
      } in
      let a' = happen_all first a in
      let b = record a' {
        tasks = record a'.tasks { health_check_task = cancelled a'.tasks.health_check_task };
      } in
      let b' = happen_all second b in
      let c = record b' {
        tasks = record b'.tasks { pvc_cleanup_task = cancelled b'.tasks.pvc_cleanup_task };
      } in
      happen_all third c

module _ {S E : Type 0} (step : E → S → S) where
  unfoldable pub replay : List E → S → S
  replay [] s = s
  replay (e ∷ es) s = replay es (step e s)

  replay-append : (es fs : List E) (s : S) → replay (es ++ fs) s ≡ replay fs (replay es s)
  unfolding replay
  replay-append [] fs s = refl
  replay-append (e ∷ es) fs s = replay-append es fs (step e s)

module _ {E : Type 0} (round_of : E → Option Round) where
  -- The events without those of loops that have ended.
  abbrev pub kept : Background → List E → List E
  kept b es = filter (λ e. allows b (round_of e)) es

  kept-all_tasks : (es : List E) → kept all_tasks es ≡ es
  kept-all_tasks [] = refl
  kept-all_tasks (e ∷ es) = rw (allows-all_tasks (round_of e)) (ap (◌∷◌ e) (kept-all_tasks es))

module _ {S E : Type 0} (round_of : E → Option Round) (step : E → S → S) where
  happen_all-replay :
      (es : List E) (y : Live S)
      → happen_all round_of step es y
        ≡ record y { state = replay step (kept round_of y.tasks es) y.state }
  unfolding happen_all happen replay
  happen_all-replay [] y = refl
  happen_all-replay (e ∷ es) y = elim (Bool-cases (allows y.tasks (round_of e))) [
    | inl runs ↦ rw runs (happen_all-replay es (record y { state = step e y.state }))
    | inr ends ↦ rw ends (happen_all-replay es y)
  ]

  -- From the start of the tasks on, each round of a loop runs, until `stop` has cancelled the loop:
  -- the cleanup of idle pods runs no more once `stop` waits for the first time, nor the health check
  -- from its second wait on, nor the cleanup of claims from the third; all other events happen as
  -- without the loops, and all three tasks have ended.
  pub stop_lem :
      (before first second third : List E) (s : S)
      → stop round_of step first second third
          (happen_all round_of step before (record { state = s; tasks = all_tasks }))
        ≡ record {
          state =
              replay step
                (before
                  ++ (kept round_of no_cleanup first
                      ++ (kept round_of only_pvcs second ++ kept round_of all_ended third)))
                s;
          tasks = all_ended;
        }
  unfolding stop cancelled
  stop_lem before first second third s = simp (happen_all-replay, kept-all_tasks, replay-append)
