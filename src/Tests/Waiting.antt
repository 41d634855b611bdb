-- ===== src/Tests/Waiting.antt =====
-- A call that waits for its pod while the background rounds run, at a concrete cluster.
use open_terminal_k8s_proxy.Base.{ℕ, true, max, refl, none, some, List, [], ◌∷◌, length}
use open_terminal_k8s_proxy.Base.Exec.{ok, swallow}
use open_terminal_k8s_proxy.Kube.Ready.{poll}
use open_terminal_k8s_proxy.PodManager.Calm.{IsCalm, run-IsCalm}
use open_terminal_k8s_proxy.PodManager.History.{start}
use open_terminal_k8s_proxy.PodManager.Interleaving.{
  System, Event, arrives, polls, resumes, rounds, cleanup, health, pvcs, steps,
}
use open_terminal_k8s_proxy.Tests.Pods.{willing, manager}

-- Bob's call finds alice's waiting, and has to come again.
abbrev busy : List (Event ℕ)
busy =
    arrives "alice"
    ∷ polls (swallow (poll ⦃env = willing⦄ "terminal-alice" "terminal-alice"))
    ∷ rounds health
    ∷ arrives "bob"
    ∷ rounds cleanup
    ∷ resumes (ok (some (true, some "10.0.0.7")))
    ∷ arrives "bob"
    ∷ rounds pvcs
    ∷ []

abbrev begun : System ℕ
begun = record { manager = start ⦃env = willing⦄ (manager []); pending = none }

run-IsCalm_example :
    IsCalm
      (max (length (start ⦃env = willing⦄ (manager [])).pods) 1)
      (steps ⦃env = willing⦄ busy begun)
run-IsCalm_example = run-IsCalm ⦃env = willing⦄ busy (manager []) refl
