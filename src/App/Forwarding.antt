-- ===== src/App/Forwarding.antt =====
-- Where a route's request goes, and whose pod and key it goes with.
use open_terminal_k8s_proxy.Base.{
  ℕ, ◌≡◌, ◌≢◌, refl, ap, ◌∙◌, inl, inr, Bool, true, false, String, ◌<>◌, none, some, ◌∷◌, truthy,
  if◌then◌else◌, arith,
}
use open_terminal_k8s_proxy.Base.Dict
use open_terminal_k8s_proxy.Base.Exec.{
  Exn, http_exception, k8s_unavailable, ok, err, Exec, pure, raise, attempt, on, ◌>>=◌, Exec-cases,
}
use open_terminal_k8s_proxy.Access.{verify_api_key, get_terminal_for_user}
use open_terminal_k8s_proxy.Access.Terminal.{get_terminal_for_user_returns, refuses}
use open_terminal_k8s_proxy.App.{
  App, Route, WebRequest, Reply, refused, proxied, on_manager, on_proxy, entering, handled,
}
use open_terminal_k8s_proxy.App.Routes.{
  with_query, key_first, dependencies, handler, route_request, get_cwd, set_cwd, proxy_files_list,
  proxy_files_read, proxy_files_display, proxy_files_write, proxy_files_replace, proxy_files_grep,
  proxy_files_glob, proxy_files, proxy_execute_list, proxy_execute, proxy_execute_process,
  proxy_ports, proxy_port_forward, proxy_terminals, proxy_terminal_session,
}
use open_terminal_k8s_proxy.App.Admission.{dependencies-cases, denied_by}
use open_terminal_k8s_proxy.Http.{Network, Response, upstream, proxy_request}
use open_terminal_k8s_proxy.Http.Circuit.{proxy_request-grows}
use open_terminal_k8s_proxy.Kube.{Env}
use open_terminal_k8s_proxy.Models.{TerminalPod, endpoint, user_id_to_hash}
use open_terminal_k8s_proxy.PodManager.{Manager}
use open_terminal_k8s_proxy.PodManager.Creation.{IsOwn}
use open_terminal_k8s_proxy.PodManager.Spec.{IsSound}

-- The path of a route on the pod.
abbrev pub path_of : Route → String
path_of Route.get_cwd = "/files/cwd"
path_of Route.set_cwd = "/files/cwd"
path_of Route.proxy_files_list = "/files/list"
path_of Route.proxy_files_read = "/files/read"
path_of Route.proxy_files_display = "/files/display"
path_of Route.proxy_files_write = "/files/write"
path_of Route.proxy_files_replace = "/files/replace"
path_of Route.proxy_files_grep = "/files/grep"
path_of Route.proxy_files_glob = "/files/glob"
path_of (Route.proxy_files path) = "/files/" <> path
path_of Route.proxy_execute_list = "/execute"
path_of Route.proxy_execute = "/execute"
path_of (Route.proxy_execute_process process_id path) = "/execute/" <> process_id <> "/" <> path
path_of Route.proxy_ports = "/ports"
path_of (Route.proxy_port_forward port path) = "/proxy/" <> port <> "/" <> path
path_of Route.proxy_terminals = "/api/terminals"
path_of (Route.proxy_terminal_session session_id) = "/api/terminals/" <> session_id

-- Whether the query is a part of the URL.
abbrev pub has_query : Route → Bool
has_query (Route.proxy_files _) = true
has_query Route.proxy_execute_list = true
has_query Route.proxy_execute = true
has_query (Route.proxy_execute_process _ _) = true
has_query (Route.proxy_port_forward _ _) = true
has_query Route.proxy_terminals = true
has_query (Route.proxy_terminal_session _) = true
has_query _ = false

-- Whether the pod's circuit breaker is asked.
abbrev pub has_breaker : Route → Bool
has_breaker Route.proxy_files_list = true
has_breaker Route.proxy_files_read = true
has_breaker Route.proxy_files_display = true
has_breaker Route.proxy_files_write = true
has_breaker Route.proxy_files_replace = true
has_breaker Route.proxy_files_grep = true
has_breaker Route.proxy_files_glob = true
has_breaker (Route.proxy_files _) = true
has_breaker _ = false

-- The URL of a route at a pod's address.
abbrev pub url_at : Route → WebRequest → String → String
url_at route request address =
    if has_query route
    then with_query request (address <> path_of route)
    else address <> path_of route

-- The address of the service of a hash.
abbrev pub address_of : String → String
address_of h = "http://" <> ("terminal-" <> h) <> ":8000"

endpoint-IsOwn : (h : String) (t : TerminalPod) → IsOwn h t → endpoint t ≡ address_of h
unfolding endpoint
endpoint-IsOwn h t own = ap (λ name. "http://" <> name <> ":8000") own.service

module _ {W : Type 0} where
  pub handled-still : (x : Exn) (s : App W) → (handled x s).1 ≡ s
  unfolding handled raise pure
  handled-still (http_exception status) s = refl
  handled-still k8s_unavailable s = refl
  handled-still x s = refl

  -- What handles the exceptions changes nothing.
  pub handled_lem : (m : Exec (App W) Reply) (s : App W) → (attempt m handled s).1 ≡ (m s).1
  unfolding attempt
  handled_lem m s = elim (Exec-cases m s) [
    | inl (a, e) ↦ ground (arith, e)
    | inr (x, e) ↦ rw e (handled-still x _)
  ]

  pub answered-state :
      (m : Exec (App W) Response) (s : App W)
      → ((m >>= λ response. pure (proxied response)) s).1 ≡ (m s).1
  unfolding ◌>>=◌
  answered-state m s = elim (Exec-cases m s) [
    | inl (a, e) ↦ ground (arith, e)
    | inr (x, e) ↦ ground (arith, e)
  ]

module _ {W : Type 0} ⦃env : Env W⦄ ⦃net : Network W⦄ (request : WebRequest) where
  abbrev pub ask_pod : Route → TerminalPod → Exec (App W) Response
  ask_pod route t = on_proxy (
      proxy_request (url_at route request (endpoint t)) request.incoming t.api_key
        (if has_breaker route then some t.user_hash else none))

  -- All handlers do the same, at the route's path.
  pub handler_lem :
      (route : Route) (user_id : String)
      → handler request route user_id
        ≡ (on_manager (get_terminal_for_user user_id) >>= λ t. ask_pod route t)
  unfolding handler get_cwd set_cwd proxy_files_list proxy_files_read proxy_files_display
      proxy_files_write proxy_files_replace proxy_files_grep proxy_files_glob proxy_files
      proxy_execute_list proxy_execute proxy_execute_process proxy_ports proxy_port_forward
      proxy_terminals proxy_terminal_session
  handler_lem Route.get_cwd user_id = refl
  handler_lem Route.set_cwd user_id = refl
  handler_lem Route.proxy_files_list user_id = refl
  handler_lem Route.proxy_files_read user_id = refl
  handler_lem Route.proxy_files_display user_id = refl
  handler_lem Route.proxy_files_write user_id = refl
  handler_lem Route.proxy_files_replace user_id = refl
  handler_lem Route.proxy_files_grep user_id = refl
  handler_lem Route.proxy_files_glob user_id = refl
  handler_lem (Route.proxy_files path) user_id = refl
  handler_lem Route.proxy_execute_list user_id = refl
  handler_lem Route.proxy_execute user_id = refl
  handler_lem (Route.proxy_execute_process process_id path) user_id = refl
  handler_lem Route.proxy_ports user_id = refl
  handler_lem (Route.proxy_port_forward port path) user_id = refl
  handler_lem Route.proxy_terminals user_id = refl
  handler_lem (Route.proxy_terminal_session session_id) user_id = refl

-- What a request of a route changes: nothing is sent to a pod; or the one request, from a user with
-- the key, goes to the address of the user's hash, with the key of the pod tracked there.
pub data Forwarded {W : Type 0} ⦃env : Env W⦄ ⦃net : Network W⦄ (proxy_api_key : String)
    (route : Route) (request : WebRequest) (before after : App W) : Type 0 where
  nothing :
      after.proxy.sent ≡ before.proxy.sent → Forwarded proxy_api_key route request before after
  one :
      (k user_id : String) (t : TerminalPod)
      → verify_api_key proxy_api_key request.credentials ≡ ok k
      → request.user_id ≡ some user_id
      → (let h = user_id_to_hash env.codecs user_id in
          IsOwn h t
          × (Dict.get h after.manager.pods ≡ some t)
          × (after.proxy.sent
              ≡ upstream net.text (url_at route request (address_of h)) request.incoming t.api_key
                ∷ before.proxy.sent))
      → Forwarded proxy_api_key route request before after

module _ {W : Type 0} ⦃env : Env W⦄ ⦃net : Network W⦄ (key : String) (route : Route)
    (request : WebRequest) (s : App W) where
  -- The body of the `try` that handles exceptions, for a user.
  abbrev pub serving : String → Exec (App W) Reply
  serving user_id = handler request route user_id >>= λ response. pure (proxied response)

  pub route-user :
      (user_id : String)
      → dependencies key route request s ≡ (ok user_id, s)
      → route_request request key route s ≡ attempt (serving user_id) handled s
  unfolding route_request attempt ◌>>=◌
  route-user user_id e = rw e refl

  route-nobody :
      (n : ℕ)
      → dependencies key route request s ≡ (err (http_exception n), s)
      → route_request request key route s ≡ (ok (refused n), s)
  unfolding route_request attempt ◌>>=◌ handled
  route-nobody n e = rw e refl

  abbrev pub Forwards : App W → Type 0
  Forwards after = Forwarded key route request s after

  asked_pod :
      (k user_id : String) (t : TerminalPod) (m : Manager W)
      → verify_api_key key request.credentials ≡ ok k
      → request.user_id ≡ some user_id
      → IsOwn (user_id_to_hash env.codecs user_id) t
      → Dict.get (user_id_to_hash env.codecs user_id) m.pods ≡ some t
      → Forwards (ask_pod request route t (record s { manager = m })).1
  unfolding on
  asked_pod k user_id t m allowed named own tracked =
      let h = user_id_to_hash env.codecs user_id in
      let mine = endpoint-IsOwn h t own in
      elim (proxy_request-grows (url_at route request (endpoint t)) request.incoming t.api_key
        (if has_breaker route then some t.user_hash else none)
        (entering (record s { manager = m }))) [
          | inl same ↦ nothing same
          | inr more ↦ one k user_id t allowed named (
            own,
            tracked,
            more
                ∙ ap
                    (λ a.
                      upstream net.text (url_at route request a) request.incoming t.api_key
                      ∷ s.proxy.sent)
                    mine,
          )
        ]

  handler-Forwarded :
      (k user_id : String)
      → IsSound s.manager
      → verify_api_key key request.credentials ≡ ok k
      → request.user_id ≡ some user_id
      → Forwards (handler request route user_id s).1
  unfolding ◌>>=◌ on
  handler-Forwarded k user_id v allowed named =
      elim (Exec-cases (get_terminal_for_user user_id) s.manager) [
        | inl (t, e) ↦
            let (own, tracked) =
              get_terminal_for_user_returns user_id s.manager t v (ap (λ x. x.0) e) in
            rw (handler_lem request route user_id, e)
              (asked_pod k user_id t _ allowed named own tracked)
        | inr (x, e) ↦ rw (handler_lem request route user_id, e) (nothing refl)
      ]

  -- From sound tracked pods, a request of a route sends at most one request to a pod. It sends one
  -- only for a request that names a user and passes the check of the key; and then to the route's
  -- path at the address of the user's hash, with the key of the running pod that is tracked under that
  -- hash.
  pub route_request-Forwarded : IsSound s.manager → Forwards (route_request request key route s).1
  route_request-Forwarded v = elim (dependencies-cases key route request s) [
    | inl (k, u, allowed, named, e) ↦
        rw (route-user u e, handled_lem (serving u) s, answered-state (handler request route u) s)
          (handler-Forwarded k u v allowed named)
    | inr (n, e) ↦ rw (route-nobody n e) (nothing refl)
  ]

  -- Where the proxy has a key, a request of a route with any other credentials or none ends in a
  -- 401, or in a 400 if the route looks for the user first and finds none; the whole application is
  -- as it was.
  pub route_request-denied :
      key ≢ ""
      → request.credentials ≢ some key
      → route_request request key route s ≡ (
        ok (
            refused (
              if key_first route
              then 401
              else elim (truthy request.user_id) [ none ↦ 400 | some _ ↦ 401 ])),
        s,
      )
  route_request-denied set other =
      route-nobody _ (denied_by key route request s (refuses key request.credentials set other))
