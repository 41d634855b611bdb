-- ===== src/App/Delivery.antt =====
-- That a request which the proxy has to pass on is passed on.
use open_terminal_k8s_proxy.Base.{◌≡◌, String, Option, none, some, ◌∷◌, truthy, if◌then◌else◌}
use open_terminal_k8s_proxy.Base.Exec.{ok, on, ◌>>=◌}
use open_terminal_k8s_proxy.Access.{verify_api_key, extract_user_id, get_terminal_for_user}
use open_terminal_k8s_proxy.App.{App, Route, WebRequest, entering}
use open_terminal_k8s_proxy.App.Admission.{both}
use open_terminal_k8s_proxy.App.Forwarding.{
  url_at, has_breaker, handler_lem, handled_lem, route-user, serving, answered-state,
}
use open_terminal_k8s_proxy.App.Routes.{key_first, dependencies, handler, route_request}
use open_terminal_k8s_proxy.Http.{Network, upstream}
use open_terminal_k8s_proxy.Http.Circuit.{permits, proxy_request-sent_if}
use open_terminal_k8s_proxy.Kube.{Env}
use open_terminal_k8s_proxy.Models.{TerminalPod, endpoint}
use open_terminal_k8s_proxy.PodManager.{Manager}

-- The key of the circuit breaker that the route asks, if it asks one.
abbrev pub breaker_key : Route → TerminalPod → Option String
breaker_key route t = truthy (if has_breaker route then some t.user_hash else none)

module _ {W : Type 0} ⦃env : Env W⦄ ⦃net : Network W⦄ (key : String) (route : Route)
    (request : WebRequest) (s : App W) where
  handler-sent :
      (user_id : String) (t : TerminalPod) (m : Manager W)
      → get_terminal_for_user user_id s.manager ≡ (ok t, m)
      → (handler request route user_id s).1.proxy.sent ≡ (
          if permits (breaker_key route t) (entering (record s { manager = m }))
          then upstream net.text (url_at route request (endpoint t)) request.incoming t.api_key
            ∷ s.proxy.sent
          else s.proxy.sent)
  unfolding ◌>>=◌ on
  handler-sent user_id t m e =
      rw (handler_lem request route user_id, e)
        (proxy_request-sent_if (url_at route request (endpoint t)) request.incoming t.api_key
          (if has_breaker route then some t.user_hash else none)
          (entering (record s { manager = m })))

  -- A request that passes the checks of key and user and for whose user `get_terminal_for_user`
  -- returns a pod is sent to that pod, and once: on the routes that ask the pod's circuit breaker if
  -- it lets the request through, and on the others in any case.
  pub route_request-sent :
      (k user_id : String) (t : TerminalPod) (m : Manager W)
      → verify_api_key key request.credentials ≡ ok k
      → extract_user_id request.user_id ≡ ok user_id
      → get_terminal_for_user user_id s.manager ≡ (ok t, m)
      → (route_request request key route s).1.proxy.sent ≡ (
          if permits (breaker_key route t) (entering (record s { manager = m }))
          then upstream net.text (url_at route request (endpoint t)) request.incoming t.api_key
            ∷ s.proxy.sent
          else s.proxy.sent)
  unfolding dependencies
  route_request-sent k user_id t m allowed named e =
      let through : dependencies key route request s ≡ (ok user_id, s) =
        rw (dependencies, allowed, named) (both (key_first route) k user_id s) in
      rw
        (
          route-user key route request s user_id through,
          handled_lem (serving key route request s user_id) s,
          answered-state (handler request route user_id) s,
        )
        (handler-sent user_id t m e)
