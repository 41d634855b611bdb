-- ===== src/App/Routes.antt =====
-- The routes that forward a request to the user's pod. A handler runs on requests whose parameters
-- FastAPI accepts; the dependencies of its decorator run before those of its parameters, and these
-- in order.
use open_terminal_k8s_proxy.Base.{Bool, true, false, String, ◌<>◌, none, some, [], ◌∷◌}
use open_terminal_k8s_proxy.Base.Exec.{Result, Exec, pure, attempt, ◌>>=◌}
use open_terminal_k8s_proxy.Access.{verify_api_key, extract_user_id, get_terminal_for_user}
use open_terminal_k8s_proxy.App.{
  App, Route, WebRequest, Reply, proxied, on_manager, on_proxy, handled,
}
use open_terminal_k8s_proxy.Http.{Network, Response, proxy_request}
use open_terminal_k8s_proxy.Kube.{Env}
use open_terminal_k8s_proxy.Models.{TerminalPod, endpoint}

-- `if request.query_params: target_url += f"?{request.query_params}"`
unfoldable pub with_query : WebRequest → String → String
with_query request target_url = elim request.incoming.query_params [
  | [] ↦ target_url
  | _ ∷ _ ↦ target_url <> "?" <> request.query
]

-- Whether the key is checked before the user is looked for, by the decorator.
unfoldable pub key_first : Route → Bool
key_first (Route.proxy_files _) = false
key_first (Route.proxy_execute_process _ _) = false
key_first Route.proxy_ports = false
key_first (Route.proxy_port_forward _ _) = false
key_first Route.proxy_terminals = false
key_first (Route.proxy_terminal_session _) = false
key_first _ = true

-- A dependency that only reads the request.
abbrev pub depend : {W A : Type 0} → Result A → Exec (App W) A
depend r s = (r, s)

-- The checks of the key and of the user, the one before the other.
unfoldable pub in_order : {W : Type 0} → Bool → Result String → Result String → Exec (App W) String
in_order true key user = do _ ← depend key; depend user
in_order false key user = do user_id ← depend user; _ ← depend key; pure user_id

-- The user of a request that the dependencies let through.
unfoldable pub dependencies : {W : Type 0} → String → Route → WebRequest → Exec (App W) String
dependencies proxy_api_key route request =
    in_order (key_first route) (verify_api_key proxy_api_key request.credentials)
      (extract_user_id request.user_id)

module _ {W : Type 0} ⦃env : Env W⦄ ⦃net : Network W⦄ (request : WebRequest) where
  terminal_for : String → Exec (App W) TerminalPod
  terminal_for user_id = on_manager (get_terminal_for_user user_id)

  -- `http_proxy.proxy_request`, without and with the key of the pod's circuit breaker
  abbrev plainly : String → TerminalPod → Exec (App W) Response
  plainly target_url terminal =
      on_proxy (proxy_request target_url request.incoming terminal.api_key none)

  abbrev with_breaker : String → TerminalPod → Exec (App W) Response
  with_breaker target_url terminal =
      on_proxy
        (proxy_request target_url request.incoming terminal.api_key (some terminal.user_hash))

  -- The handlers, given the user of the dependencies.
  unfoldable pub get_cwd : String → Exec (App W) Response
  unfolding terminal_for
  get_cwd user_id = do
    terminal ← terminal_for user_id
    let target_url = endpoint terminal <> "/files/cwd"
    plainly target_url terminal

  unfoldable pub set_cwd : String → Exec (App W) Response
  unfolding terminal_for
  set_cwd user_id = do
    terminal ← terminal_for user_id
    let target_url = endpoint terminal <> "/files/cwd"
    plainly target_url terminal

  unfoldable pub proxy_files_list : String → Exec (App W) Response
  unfolding terminal_for
  proxy_files_list user_id = do
    terminal ← terminal_for user_id
    with_breaker (endpoint terminal <> "/files/list") terminal

  unfoldable pub proxy_files_read : String → Exec (App W) Response
  unfolding terminal_for
  proxy_files_read user_id = do
    terminal ← terminal_for user_id
    with_breaker (endpoint terminal <> "/files/read") terminal

  unfoldable pub proxy_files_display : String → Exec (App W) Response
  unfolding terminal_for
  proxy_files_display user_id = do
    terminal ← terminal_for user_id
    with_breaker (endpoint terminal <> "/files/display") terminal

  unfoldable pub proxy_files_write : String → Exec (App W) Response
  unfolding terminal_for
  proxy_files_write user_id = do
    terminal ← terminal_for user_id
    with_breaker (endpoint terminal <> "/files/write") terminal

  unfoldable pub proxy_files_replace : String → Exec (App W) Response
  unfolding terminal_for
  proxy_files_replace user_id = do
    terminal ← terminal_for user_id
    with_breaker (endpoint terminal <> "/files/replace") terminal

  unfoldable pub proxy_files_grep : String → Exec (App W) Response
  unfolding terminal_for
  proxy_files_grep user_id = do
    terminal ← terminal_for user_id
    with_breaker (endpoint terminal <> "/files/grep") terminal

  unfoldable pub proxy_files_glob : String → Exec (App W) Response
  unfolding terminal_for
  proxy_files_glob user_id = do
    terminal ← terminal_for user_id
    with_breaker (endpoint terminal <> "/files/glob") terminal

  unfoldable pub proxy_files : String → String → Exec (App W) Response
  unfolding terminal_for
  proxy_files path user_id = do
    terminal ← terminal_for user_id
    let target_url = with_query request (endpoint terminal <> "/files/" <> path)
    with_breaker target_url terminal

  unfoldable pub proxy_execute_list : String → Exec (App W) Response
  unfolding terminal_for
  proxy_execute_list user_id = do
    terminal ← terminal_for user_id
    let target_url = with_query request (endpoint terminal <> "/execute")
    plainly target_url terminal

  unfoldable pub proxy_execute : String → Exec (App W) Response
  unfolding terminal_for
  proxy_execute user_id = do
    terminal ← terminal_for user_id
    let target_url = with_query request (endpoint terminal <> "/execute")
    plainly target_url terminal

  unfoldable pub proxy_execute_process : String → String → String → Exec (App W) Response
  unfolding terminal_for
  proxy_execute_process process_id path user_id = do
    terminal ← terminal_for user_id
    let target_url =
        with_query request (endpoint terminal <> "/execute/" <> process_id <> "/" <> path)
    plainly target_url terminal

  unfoldable pub proxy_ports : String → Exec (App W) Response
  unfolding terminal_for
  proxy_ports user_id = do
    terminal ← terminal_for user_id
    let target_url = endpoint terminal <> "/ports"
    plainly target_url terminal

  unfoldable pub proxy_port_forward : String → String → String → Exec (App W) Response
  unfolding terminal_for
  proxy_port_forward port path user_id = do
    terminal ← terminal_for user_id
    let target_url = with_query request (endpoint terminal <> "/proxy/" <> port <> "/" <> path)
    plainly target_url terminal

  unfoldable pub proxy_terminals : String → Exec (App W) Response
  unfolding terminal_for
  proxy_terminals user_id = do
    terminal ← terminal_for user_id
    let target_url = with_query request (endpoint terminal <> "/api/terminals")
    plainly target_url terminal

  unfoldable pub proxy_terminal_session : String → String → Exec (App W) Response
  unfolding terminal_for
  proxy_terminal_session session_id user_id = do
    terminal ← terminal_for user_id
    let target_url = with_query request (endpoint terminal <> "/api/terminals/" <> session_id)
    plainly target_url terminal

  unfoldable pub handler : Route → String → Exec (App W) Response
  handler Route.get_cwd = get_cwd
  handler Route.set_cwd = set_cwd
  handler Route.proxy_files_list = proxy_files_list
  handler Route.proxy_files_read = proxy_files_read
  handler Route.proxy_files_display = proxy_files_display
  handler Route.proxy_files_write = proxy_files_write
  handler Route.proxy_files_replace = proxy_files_replace
  handler Route.proxy_files_grep = proxy_files_grep
  handler Route.proxy_files_glob = proxy_files_glob
  handler (Route.proxy_files path) = proxy_files path
  handler Route.proxy_execute_list = proxy_execute_list
  handler Route.proxy_execute = proxy_execute
  handler (Route.proxy_execute_process process_id path) = proxy_execute_process process_id path
  handler Route.proxy_ports = proxy_ports
  handler (Route.proxy_port_forward port path) = proxy_port_forward port path
  handler Route.proxy_terminals = proxy_terminals
  handler (Route.proxy_terminal_session session_id) = proxy_terminal_session session_id

  -- A request on a route, from its dependencies to the handling of what it raises.
  unfoldable pub route_request : String → Route → Exec (App W) Reply
  route_request proxy_api_key route =
      attempt
        (do
          user_id ← dependencies proxy_api_key route request
          response ← handler route user_id
          pure (proxied response))
        handled
