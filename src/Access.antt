-- ===== src/Access.antt =====
-- terminal_proxy/main.py: who may ask, and the pod that a request gets.
pub mod Terminal
pub mod Socket
use open_terminal_k8s_proxy.Base.{
  Bool, true, false, String, ◌==◌, Option, none, some, truthy, if◌then◌else◌,
}
use open_terminal_k8s_proxy.Base.Exec.{
  Exn, api_exception, http_exception, k8s_unavailable, Result, ok, err, Exec, pure, raise, gets,
  attempt, ◌>>=◌, ◌>>◌,
}
use open_terminal_k8s_proxy.Kube.{Client, Env}
use open_terminal_k8s_proxy.Kube.Methods.{init}
use open_terminal_k8s_proxy.Models.{TerminalPod}
use open_terminal_k8s_proxy.PodManager.{Manager, is_running, on_client}
use open_terminal_k8s_proxy.PodManager.Create.{lift, get_or_create}

-- The key of the proxy, and the credentials of the request, if it has any.
unfoldable pub verify_api_key : String → Option String → Result String
verify_api_key proxy_api_key credentials =
    if proxy_api_key == "" then ok "anonymous" else elim credentials [
      | none ↦ err (http_exception 401)
      | some key ↦ if key == proxy_api_key then ok key else err (http_exception 401)
    ]

-- The value of the header `X-User-Id`, if it is there.
unfoldable pub extract_user_id : Option String → Result String
extract_user_id user_id = elim (truthy user_id) [
  | none ↦ err (http_exception 400)
  | some name ↦ ok name
]

-- What the handlers of `get_terminal_for_user` raise.
unfoldable pub translated : Exn → Exn
translated (http_exception status) = http_exception status
translated _ = k8s_unavailable

module _ {W : Type 0} ⦃env : Env W⦄ where
  unfoldable pub ensure_k8s_available : Exec (Client W) Unit
  ensure_k8s_available = do
    done ← gets (λ c. c.initialized)
    if done then pure tt else attempt init (λ _. raise k8s_unavailable)

  unfoldable pub get_terminal_for_user : String → Exec (Manager W) TerminalPod
  get_terminal_for_user user_id = do
    on_client ensure_k8s_available
    attempt
        (do
          terminal ← get_or_create user_id
          if is_running terminal.state then pure terminal else raise (http_exception 503))
        (λ e. raise (translated e))

  -- A route of the terminal: the dependencies in order, then its body as far as the pod.
  unfoldable pub terminal_of : String → Option String → Option String → Exec (Manager W) TerminalPod
  terminal_of proxy_api_key credentials user_id = do
    _ ← lift (verify_api_key proxy_api_key credentials)
    name ← lift (extract_user_id user_id)
    get_terminal_for_user name
