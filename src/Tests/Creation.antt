-- ===== src/Tests/Creation.antt =====
-- The theorems on the requests that make a pod, at a cluster that does all and one that forbids pods.
use open_terminal_k8s_proxy.Base.{◌≡◌, refl, Option, none, some, [], ◌∷◌, All}
use open_terminal_k8s_proxy.Base.Exec.{Exn, api_exception, err}
use open_terminal_k8s_proxy.Kube.{Request, create_namespaced_pod}
use open_terminal_k8s_proxy.Kube.Methods
use open_terminal_k8s_proxy.Json.{text}
use open_terminal_k8s_proxy.Kube.Retry.Rejected.{create_pod-rejected}
use open_terminal_k8s_proxy.PodManager.Opening.{create_pod_resources_lem}
use open_terminal_k8s_proxy.PodManager.Opening.Rejected.{
  IsNoDeletion, create_pod_resources-rejected,
}
use open_terminal_k8s_proxy.PodManager.Opening.Phases.{phases, Ordered}
use open_terminal_k8s_proxy.PodManager.Opening.Kinds.{MayOpen}
use open_terminal_k8s_proxy.PodManager.Create.{create_pod_resources}
use open_terminal_k8s_proxy.Tests.World.{defaults, world, world_laws}
use open_terminal_k8s_proxy.Tests.Pods.{willing, manager, crowded, alices}

create_pod_resources_lem_example :
    All
      (MayOpen alices)
      (create_pod_resources ⦃env = willing⦄ alices (manager [])).1.storage.client.sent
    × Ordered 7
        (phases (create_pod_resources ⦃env = willing⦄ alices (manager [])).1.storage.client.sent)
create_pod_resources_lem_example =
    create_pod_resources_lem ⦃env = willing⦄ (world_laws (λ _. none) defaults) alices (manager [])
      refl

-- A server that forbids pods.
abbrev forbidding : Request → Option Exn
forbidding (create_namespaced_pod _ _) = some (api_exception 403)
forbidding _ = none

create_pod-rejected_example :
    let r = create_namespaced_pod "default" (text "a pod") in
    ((Methods.create_pod ⦃env = world forbidding defaults⦄ (text "a pod") crowded.storage.client).0
      ≡ err (api_exception 403))
    × ((Methods.create_pod ⦃env = world forbidding defaults⦄
          (text "a pod")
          crowded.storage.client).1.sent
        ≡ r ∷ r ∷ r ∷ [])
create_pod-rejected_example =
    create_pod-rejected ⦃env = world forbidding defaults⦄ (world_laws forbidding defaults)
      (text "a pod") 403 crowded.storage.client (λ w. refl) refl

-- There the secret is made, and it stays.
create_pod_resources-rejected_example :
    ((e : Exn) × ((create_pod_resources ⦃env = world forbidding defaults⦄ alices (manager [])).0
        ≡ err e))
    × All IsNoDeletion
        (create_pod_resources ⦃env = world forbidding defaults⦄ alices
          (manager [])).1.storage.client.sent
create_pod_resources-rejected_example =
    create_pod_resources-rejected ⦃env = world forbidding defaults⦄ (world_laws forbidding defaults)
      alices 403 (λ ns m w. refl) (manager []) refl
