-- ===== src/App/Middleware.antt =====
-- The two middleware functions of terminal_proxy/main.py. The limit on the body's size was added
-- last, so it runs first; around it there is only the one for CORS, which FastAPI has.
pub mod Gate
pub mod Recorded
use open_terminal_k8s_proxy.Base.{
  ℕ, ◌-◌, Bool, true, false, String, Option, none, some, [], ◌∷◌, not, ltb, truthy, if◌then◌else◌,
}
use open_terminal_k8s_proxy.Base.Exec.{value_error, ok, Exec, pure, raise, modify, ◌>>=◌, ◌>>◌}
use open_terminal_k8s_proxy.App.{
  App, Route, WebRequest, Reply, refused, status_of, world_of, with_world,
}
use open_terminal_k8s_proxy.App.Routes.{route_request}
use open_terminal_k8s_proxy.Http.{Network, is_in}
use open_terminal_k8s_proxy.Kube.{Env}
use open_terminal_k8s_proxy.Metrics.{record_request}
use open_terminal_k8s_proxy.RateLimit.{admit}

abbrev pub request_body_max_size : ℕ
request_body_max_size = 104857600

-- What Python's `int` makes of a text, or its `ValueError`.
pub data Integer : Type 0 where
  natural : ℕ → Integer
  negative invalid : Integer

abbrev pub or_unknown : Option String → String
or_unknown none = "unknown"
or_unknown (some host) = host

-- What the limit finds of a body: a `content-length` that is no number raises.
pub data Size : Type 0 where
  fits too_large unreadable : Size

unfoldable pub size_by : Integer → Size
size_by (natural n) = if ltb request_body_max_size n then too_large else fits
size_by negative = fits
size_by invalid = unreadable

unfoldable pub size_of : (String → Integer) → WebRequest → Size
size_of int request =
    if is_in request.incoming.method ("POST" ∷ "PUT" ∷ "PATCH" ∷ [])
    then elim (truthy request.content_length) [
      | none ↦ fits
      | some content_length ↦ size_by (int content_length)
    ]
    else fits

module _ {W : Type 0} ⦃net : Network W⦄ (request : WebRequest) where
  -- `time.time()`
  unfoldable pub clock : Exec (App W) ℕ
  clock s =
      let (now, w) = net.time (world_of s) in
      (ok now, record s { manager = with_world w s.manager })

  abbrev pub note : ℕ → ℕ → Exec (App W) Unit
  note latency status_code = modify λ s. record s {
    metrics = record_request request.incoming.method request.path latency status_code s.metrics;
  }

  -- The decision of the rate limit, with the client's new stamps.
  abbrev pub count_in : ℕ → Exec (App W) Bool
  count_in now s =
      let (allowed, counts) = admit (or_unknown request.client_host) now s.request_counts in
      (ok allowed, record s { request_counts = counts })

  unfoldable pub rate_limit_middleware : Exec (App W) Reply → Exec (App W) Reply
  rate_limit_middleware call_next = do
    now ← clock
    allowed ← count_in now
    if allowed
        then (do
          start_time ← clock
          response ← call_next
          end_time ← clock
          note (end_time - start_time) (status_of response)
          pure response)
        else (do later ← clock; note (later - now) 429; pure (refused 429))

  unfoldable pub request_size_limit_middleware :
      (String → Integer) → Exec (App W) Reply → Exec (App W) Reply
  request_size_limit_middleware int call_next = elim (size_of int request) [
    | fits ↦ call_next
    | too_large ↦ note 0 413 >> pure (refused 413)
    | unreadable ↦ raise value_error
  ]

-- A request of a route, through both.
unfoldable pub serve :
    {W : Type 0} ⦃env : Env W⦄ ⦃net : Network W⦄
    → (String → Integer)
    → String
    → WebRequest
    → Route
    → Exec (App W) Reply
serve int proxy_api_key request route =
    request_size_limit_middleware request int
      (rate_limit_middleware request (route_request request proxy_api_key route))
