-- ===== src/Http.antt =====
-- terminal_proxy/proxy/http.py: `HttpProxy`.
pub mod Headers
pub mod Circuit
pub mod Parts
pub mod Concurrent
use open_terminal_k8s_proxy.Base.{
  ℕ, Bool, true, false, String, ◌<>◌, ◌==◌, Option, none, some, List, [], ◌∷◌, any, truthy,
  if◌then◌else◌,
}
use open_terminal_k8s_proxy.Base.Dict
use open_terminal_k8s_proxy.Base.Dict.{Dict}
use open_terminal_k8s_proxy.Base.Exec.{
  Exn, httpx_connect, httpx_timeout, Result, ok, err, Exec, pure, raise, modify, attempt, ◌>>=◌,
  ◌>>◌,
}
use open_terminal_k8s_proxy.Breaker.{Event, asks, succeeds, fails, can_execute}
use open_terminal_k8s_proxy.Breaker.Registry.{Registry, apply, breaker}

-- What the proxy reads of a client's request; a header or a parameter may stand there twice.
pub record Incoming : Type 0 where
  pub method : String
  pub headers : List (String × String)
  pub query_params : List (String × String)
  pub body : String

-- The request to the pod.
pub record Upstream : Type 0 where
  pub method : String
  pub url : String
  pub headers : Dict String
  pub content : Option String
  pub params : Dict String

-- The pod's answer; `content_type` is its header of that name, or the empty text.
pub record Answer : Type 0 where
  pub status_code : ℕ
  pub headers : List (String × String)
  pub content_type : String
  pub content : String

-- The response to the client, streamed or whole.
pub record Response : Type 0 where
  pub status_code : ℕ
  pub headers : Dict String
  pub content : String
  pub media_type : Option String
  pub streaming : Bool

-- Two methods of Python's `str`: `k.lower()` and `part in whole`.
pub record Text : Type 0 where
  pub lower : String → String
  pub contains : String → String → Bool

-- What is not the program's: the texts, httpx's client and the clock.
pub record Network (W : Type 0) : Type 0 where
  pub text : Text
  pub request : Upstream → W → Result Answer × W
  pub time : W → ℕ × W

-- `sent` is the log of the requests to the pods, the last one first.
pub record Proxy (W : Type 0) : Type 0 where
  pub world : W
  pub has_client : Bool
  pub breakers : Registry
  pub sent : List Upstream

abbrev pub stripped_request_headers : List String
stripped_request_headers =
    "host" ∷ "content-length" ∷ "transfer-encoding" ∷ "connection" ∷ "authorization" ∷ []

abbrev pub stripped_response_headers : List String
stripped_response_headers =
    "content-encoding" ∷ "content-length" ∷ "transfer-encoding" ∷ "connection" ∷ []

abbrev pub streaming_content_types : List String
streaming_content_types =
    "application/octet-stream" ∷ "image/" ∷ "application/pdf" ∷ "video/" ∷ "audio/" ∷ []

abbrev pub is_in : String → List String → Bool
is_in k names = any (λ name. name == k) names

-- `{k: v for k, v in items if keep(k)}`: the last of equal keys counts.
unfoldable pub collect : (String → Bool) → List (String × String) → Dict String → Dict String
collect drop [] d = d
collect drop ((k, v) ∷ items) d =
    let skipped = collect drop items d in
    let taken = collect drop items (Dict.put k v d) in if drop k then skipped else taken

-- An error that the proxy answers itself.
abbrev pub refusal : ℕ → String → Response
refusal status body = record {
  status_code = status;
  headers = [];
  content = body;
  media_type = some "application/json";
  streaming = false;
}

abbrev pub unavailable : Response
unavailable =
    refusal 503
      "{\"error\": \"Circuit breaker open\", \"detail\": \"Terminal pod is temporarily unavailable\"}"

module _ (text : Text) where
  unfoldable pub upstream_headers : List (String × String) → String → Dict String
  upstream_headers headers terminal_api_key =
      Dict.put "Authorization" ("Bearer " <> terminal_api_key)
        (collect (λ k. is_in (text.lower k) stripped_request_headers) headers [])

  unfoldable pub upstream : String → Incoming → String → Upstream
  upstream target_url request terminal_api_key = record {
    method = request.method;
    url = target_url;
    headers = upstream_headers request.headers terminal_api_key;
    content = truthy (some request.body);
    params = collect (λ _. false) request.query_params [];
  }

  unfoldable pub response_to : Answer → Response
  response_to answer =
      let headers =
        collect (λ k. is_in (text.lower k) stripped_response_headers) answer.headers [] in
      if any (λ ct. text.contains ct answer.content_type) streaming_content_types
      then record {
        status_code = answer.status_code;
        headers = headers;
        content = answer.content;
        media_type = some answer.content_type;
        streaming = true;
      }
      else record {
        status_code = answer.status_code;
        headers = headers;
        content = answer.content;
        media_type = none;
        streaming = false;
      }

module _ {W : Type 0} ⦃net : Network W⦄ where
  unfoldable pub get_client : Exec (Proxy W) Unit
  get_client = modify (λ s. record s { has_client = true })

  -- `close` after its wait, which there is only if there is a client.
  unfoldable pub end_close : Exec (Proxy W) Unit
  end_close = modify (λ s. record s { has_client = false })

  -- `client.request`
  unfoldable pub forward : Upstream → Exec (Proxy W) Answer
  forward up s =
      let (answer, w) = net.request up s.world in
      (answer, record s { world = w; sent = up ∷ s.sent })

  -- `can_execute` on the breaker of the key, at the clock's time, which only an open circuit reads.
  unfoldable pub permitted : String → Exec (Proxy W) Bool
  permitted key s =
      let (now, w) = net.time s.world in
      (
        ok (can_execute now (breaker key s.breakers)).0,
        record s { world = w; breakers = apply key (asks now) s.breakers },
      )

  unfoldable pub ask : Option String → Exec (Proxy W) Bool
  ask none = pure true
  ask (some key) = permitted key

  -- A call of `record_success` or `record_failure` on the breaker of the key, if there is one.
  unfoldable pub report : Option String → (ℕ → Event) → Exec (Proxy W) Unit
  report none event s = (ok tt, s)
  report (some key) event s =
      let (now, w) = net.time s.world in
      (ok tt, record s { world = w; breakers = apply key (event now) s.breakers })

  -- The two `except` clauses.
  unfoldable pub excused : Option String → Exn → Exec (Proxy W) Response
  excused key httpx_connect = do
    report key fails
    pure (refusal 503 "{\"error\": \"Terminal pod unavailable\"}")
  excused key httpx_timeout = do
    report key fails
    pure (refusal 504 "{\"error\": \"Terminal pod timeout\"}")
  excused key e = raise e

  -- The `try` block; a report does not raise.
  unfoldable pub exchange : Option String → Upstream → Exec (Proxy W) Response
  exchange key up =
      attempt
        (do
          get_client
          answer ← forward up
          report key (λ _. succeeds)
          pure (response_to net.text answer))
        (excused key)

  unfoldable pub proxy_request :
      String → Incoming → String → Option String → Exec (Proxy W) Response
  proxy_request target_url request terminal_api_key pod_key = do
    allowed ← ask (truthy pod_key)
    if allowed
        then exchange (truthy pod_key) (upstream net.text target_url request terminal_api_key)
        else pure unavailable
