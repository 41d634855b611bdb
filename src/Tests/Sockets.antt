-- ===== src/Tests/Sockets.antt =====
-- The theorems on the WebSocket endpoint and the restart at concrete inputs.
use open_terminal_k8s_proxy.Base.{
  ℕ, ◌≡◌, refl, true, String, Option, none, some, ◌+◌, List, [], ◌∷◌, ◌&&◌, if◌then◌else◌,
}
use open_terminal_k8s_proxy.Base.Dict.{Dict}
use open_terminal_k8s_proxy.Base.Exec.{ok, err, value_error}
use open_terminal_k8s_proxy.Access.Socket.{Closes}
use open_terminal_k8s_proxy.Json.{Json, text, member}
use open_terminal_k8s_proxy.Kube.{Env, Request, Reply, read_namespaced_secret, RetryLaws}
use open_terminal_k8s_proxy.Models.{create}
use open_terminal_k8s_proxy.PodBuilder.{build_pod_for_user, choose_storage}
use open_terminal_k8s_proxy.PodBuilder.Claims.{build_secret_manifest}
use open_terminal_k8s_proxy.PodManager.Methods.{get_api_key_from_secret}
use open_terminal_k8s_proxy.PodManager.Restart.{get_api_key_from_secret-build_pod_for_user}
use open_terminal_k8s_proxy.Tests.Pods.{willing, alices, manager, manifests}
use open_terminal_k8s_proxy.Tests.World.{defaults, world_laws, reply_to}
use open_terminal_k8s_proxy.WebSocket.{
  Event, from_client, from_upstream, receive, disconnect, text_message, connected, proxy_websocket,
}
use open_terminal_k8s_proxy.WebSocket.Relay.{
  ends, client_actions, upstream_actions, proxy_websocket-closes,
}

abbrev typed : List Event
typed =
    from_client (receive none (some "ls")) true
    ∷ from_upstream (text_message "a.txt") true
    ∷ from_client disconnect true
    ∷ from_upstream (text_message "b.txt") true
    ∷ []

-- A stand-in for `json.dumps`.
abbrev constant_dumps : Json → String
constant_dumps j = "{}"

proxy_websocket-closes_example :
    (proxy_websocket constant_dumps alices connected typed).closed
    ≡ (if ends (client_actions typed) && ends (upstream_actions typed) then none ∷ [] else [])
proxy_websocket-closes_example = proxy_websocket-closes constant_dumps alices typed

abbrev pub loads : String → Option (Dict Json)
loads raw = some (("type", text "auth") ∷ ("token", text raw) ∷ [])

-- A client that is gone.
abbrev gone : Closes
gone n = err value_error

-- A cluster with the secret that was made for the pod.
abbrev keep_reply : (r : Request) → Reply r
keep_reply (read_namespaced_secret _ _) = record { secret_data = some (("api-key", "key") ∷ []) }
keep_reply r = reply_to r

abbrev keeping : Env ℕ
keeping = record willing { answer = λ r w. (ok (keep_reply r), w + 1) }

keeping-laws : RetryLaws keeping
keeping-laws =
    let laws = world_laws (λ _. none) defaults in
    record {
      succeed = laws.succeed;
      refuse = laws.refuse;
      give_up = laws.give_up;
      again = laws.again;
    }

get_api_key_from_secret-build_pod_for_user_example :
    (get_api_key_from_secret ⦃env = keeping⦄ alices.secret_name (manager [])).0 ≡ ok "key"
unfolding build_pod_for_user choose_storage member build_secret_manifest create
get_api_key_from_secret-build_pod_for_user_example =
    get_api_key_from_secret-build_pod_for_user ⦃env = keeping⦄ keeping-laws
      (record { b64decode-b64encode = λ s. refl }) alices none manifests (("api-key", "key") ∷ [])
      (manager []) refl refl (λ w. refl) refl
