-- ===== src/App.antt =====
-- terminal_proxy/main.py: the application, which joins the pod manager and the HTTP proxy. Both
-- act on one world; the one in `proxy` is the manager's whenever the proxy runs.
pub mod Routes
pub mod Admission
pub mod Forwarding
pub mod Middleware
pub mod Status
pub mod Lifespan
pub mod Delivery
pub mod Orderly
pub mod History
pub mod Shutdown
use open_terminal_k8s_proxy.Base.{ℕ, String, Option}
use open_terminal_k8s_proxy.Base.Exec.{
  Exn, http_exception, k8s_unavailable, ok, Exec, pure, raise, on,
}
use open_terminal_k8s_proxy.Http.{Incoming, Network, Proxy, Response}
use open_terminal_k8s_proxy.Kube.{Client}
use open_terminal_k8s_proxy.Metrics.{Metrics}
use open_terminal_k8s_proxy.PodManager.{Manager}
use open_terminal_k8s_proxy.RateLimit.{Counts}

-- What FastAPI gives the handlers and the middleware of a request: its parts for the proxy, its
-- path, the address of the client, the token of a header `Authorization: Bearer`, the values of the
-- headers `X-User-Id` and `content-length`, and the text of its query.
pub record WebRequest : Type 0 where
  pub incoming : Incoming
  pub path : String
  pub client_host : Option String
  pub credentials : Option String
  pub user_id : Option String
  pub content_length : Option String
  pub query : String

-- The handlers that forward a request, with the parameters of their paths; `port` is a text here.
pub data Route : Type 0 where
  get_cwd set_cwd : Route
  proxy_files_list proxy_files_read proxy_files_display proxy_files_write : Route
  proxy_files_replace proxy_files_grep proxy_files_glob : Route
  -- with `path`
  proxy_files : String → Route
  proxy_execute_list proxy_execute : Route
  -- with `process_id` and `path`
  proxy_execute_process : String → String → Route
  proxy_ports : Route
  -- with the text of `port`, and `path`
  proxy_port_forward : String → String → Route
  proxy_terminals : Route
  -- with `session_id`
  proxy_terminal_session : String → Route

pub record App (W : Type 0) : Type 0 where
  pub manager : Manager W
  pub proxy : Proxy W
  pub request_counts : Counts
  pub metrics : Metrics

-- What the client gets: the proxy's response, or an error of the application's own with a status.
pub data Reply : Type 0 where
  proxied : Response → Reply
  refused : ℕ → Reply

unfoldable pub status_of : Reply → ℕ
status_of (proxied response) = response.status_code
status_of (refused status) = status

module _ {W : Type 0} where
  abbrev pub world_of : App W → W
  world_of s = s.manager.storage.client.world

  abbrev pub with_world : W → Manager W → Manager W
  with_world w s = record s {
    storage = record s.storage { client = record s.storage.client { world = w } };
  }

  abbrev pub on_manager : {A : Type 0} → Exec (Manager W) A → Exec (App W) A
  on_manager m = on (λ s. s.manager) (λ t s. record s { manager = t }) m

  abbrev pub entering : App W → Proxy W
  entering s = record s.proxy { world = world_of s }

  abbrev pub leaving : Proxy W → App W → App W
  leaving p s = record s { proxy = p; manager = with_world p.world s.manager }

  abbrev pub on_proxy : {A : Type 0} → Exec (Proxy W) A → Exec (App W) A
  on_proxy m = on entering leaving m

  -- FastAPI's handling of an `HTTPException`, and `k8s_unavailable_handler`; any other exception
  -- goes on.
  unfoldable pub handled : Exn → Exec (App W) Reply
  handled (http_exception status) = pure (refused status)
  handled k8s_unavailable = pure (refused 503)
  handled e = raise e
