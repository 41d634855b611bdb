-- ===== src/App/Middleware/Gate.antt =====
-- What the middleware lets through.
use open_terminal_k8s_proxy.Base.{
  ℕ, ◌≡◌, ◌≢◌, refl, ◌⊎◌, inl, inr, Bool, true, false, String, ◌-◌, ◌+◌, ◌*◌, ◌<◌, ◌≤◌, some, none,
  length, filter, ltb, arith, eq_iff, truthy, if◌then◌else◌, ◌∙◌, sym, subst, Option, [], ◌∷◌,
}
use open_terminal_k8s_proxy.Base.Exec.{
  ok, err, value_error, raise, Exn, Exec, Result, pure, modify, ◌>>=◌,
}
use open_terminal_k8s_proxy.App.{
  App, Route, WebRequest, Reply, refused, status_of, world_of, with_world,
}
use open_terminal_k8s_proxy.App.Middleware.{
  Integer, natural, size_by, Size, fits, too_large, unreadable, size_of, clock,
  rate_limit_middleware, request_size_limit_middleware, serve, or_unknown,
}
use open_terminal_k8s_proxy.App.Routes.{route_request}
use open_terminal_k8s_proxy.Http.{Network, is_in}
use open_terminal_k8s_proxy.Kube.{Env}
use open_terminal_k8s_proxy.Metrics.{record_request}
use open_terminal_k8s_proxy.RateLimit.{admit, stamps_of}

module _ {W : Type 0} ⦃net : Network W⦄ (request : WebRequest) where
  -- The decision of the rate limit, and the state after it.
  abbrev pub decided : App W → Bool × App W
  decided s =
      let (now, w) = net.time (world_of s) in
      let (allowed, counts) = admit (or_unknown request.client_host) now s.request_counts in
      (allowed, record s { manager = with_world w s.manager; request_counts = counts })

  -- The state in which the request goes on.
  abbrev pub onward : App W → App W
  onward s = (clock request (decided s).1).1

  -- The state after an answer of this status, which came at a time `t` before.
  abbrev pub noted : ℕ → ℕ → App W → App W
  noted t status s =
      let (now, w) = net.time (world_of s) in
      record s {
        manager = with_world w s.manager;
        metrics = record_request request.incoming.method request.path (now - t) status s.metrics;
      }

  module _ (call_next : Exec (App W) Reply) where
    pub limited :
        (s : App W)
        → (decided s).0 ≡ false
        → rate_limit_middleware request call_next s
          ≡ (ok (refused 429), noted (net.time (world_of s)).0 429 (decided s).1)
    unfolding rate_limit_middleware clock ◌>>=◌ pure modify
    limited s shut = rw shut refl

    pub passed :
        (s s' : App W) (r : Reply)
        → (decided s).0 ≡ true
        → call_next (onward s) ≡ (ok r, s')
        → rate_limit_middleware request call_next s
          ≡ (ok r, noted (net.time (world_of (decided s).1)).0 (status_of r) s')
    unfolding rate_limit_middleware clock ◌>>=◌ pure modify
    passed s s' r allowed e = rw (allowed, e) refl

    pub broke :
        (s s' : App W) (x : Exn)
        → (decided s).0 ≡ true
        → call_next (onward s) ≡ (err x, s')
        → rate_limit_middleware request call_next s ≡ (err x, s')
    unfolding rate_limit_middleware clock ◌>>=◌
    broke s s' x allowed e = rw (allowed, e) refl

pub Size-cases : (x : Size) → (x ≡ fits) ⊎ (x ≡ too_large) ⊎ (x ≡ unreadable)
Size-cases fits = inl refl
Size-cases too_large = inr (inl refl)
Size-cases unreadable = inr (inr refl)

module _ {W : Type 0} ⦃net : Network W⦄ (int : String → Integer) (request : WebRequest)
    (call_next : Exec (App W) Reply) (s : App W) where
  abbrev pub sized : Result Reply × App W
  sized = request_size_limit_middleware request int call_next s

  pub fitting : size_of int request ≡ fits → sized ≡ call_next s
  unfolding request_size_limit_middleware
  fitting e = rw (e, request_size_limit_middleware) refl

  pub oversized :
      size_of int request ≡ too_large
      → sized ≡ (
        ok (refused 413),
        record s { metrics = record_request request.incoming.method request.path 0 413 s.metrics },
      )
  unfolding request_size_limit_middleware ◌>>=◌ modify pure
  oversized e = rw (e, request_size_limit_middleware) refl

  pub unread : size_of int request ≡ unreadable → sized ≡ (err value_error, s)
  unfolding request_size_limit_middleware raise
  unread e = rw (e, request_size_limit_middleware) refl

-- The request has a method with a body and announces more than 100 MiB.
pub record IsTooLarge (int : String → Integer) (request : WebRequest) : Type 0 where
  pub bodied :
      (request.incoming.method ≡ "POST")
      ⊎ (request.incoming.method ≡ "PUT")
      ⊎ (request.incoming.method ≡ "PATCH")
  pub header : String
  pub announced : request.content_length ≡ some header
  pub filled : header ≢ ""
  pub bytes : ℕ
  pub reads : int header ≡ natural bytes
  pub over : 100 * 1024 * 1024 < bytes

-- It has no body, or it announces none, or one of at most 100 MiB.
pub data IsSmall (int : String → Integer) (request : WebRequest) : Type 0 where
  bodiless :
      request.incoming.method ≢ "POST"
      → request.incoming.method ≢ "PUT"
      → request.incoming.method ≢ "PATCH"
      → IsSmall int request
  unannounced : request.content_length ≡ none → IsSmall int request
  announced :
      (header : String) (bytes : ℕ)
      → request.content_length ≡ some header
      → int header ≡ natural bytes
      → bytes ≤ 100 * 1024 * 1024
      → IsSmall int request

is_bodied : String → Bool
is_bodied method = is_in method ("POST" ∷ "PUT" ∷ "PATCH" ∷ [])

is_bodied-true : (m : String) → (m ≡ "POST") ⊎ (m ≡ "PUT") ⊎ (m ≡ "PATCH") → is_bodied m ≡ true
unfolding is_bodied
is_bodied-true m (inl e) = subst (λ k. is_bodied k ≡ true) (sym e) refl
is_bodied-true m (inr (inl e)) = subst (λ k. is_bodied k ≡ true) (sym e) refl
is_bodied-true m (inr (inr e)) = subst (λ k. is_bodied k ≡ true) (sym e) refl

is_bodied-false : (m : String) → m ≢ "POST" → m ≢ "PUT" → m ≢ "PATCH" → is_bodied m ≡ false
unfolding is_bodied
is_bodied-false m a b c = ground (arith, eq_iff "POST" m, eq_iff "PUT" m, eq_iff "PATCH" m, a, b, c)

-- What the limit makes of the header, for a method with a body.
sized_by : (String → Integer) → Option String → Size
sized_by int header = elim (truthy header) [ none ↦ fits | some text ↦ size_by (int text) ]

size_of_bodied :
    (int : String → Integer) (request : WebRequest) (header : Option String)
    → request.content_length ≡ header
    → size_of int request
      ≡ (if is_bodied request.incoming.method then sized_by int header else fits)
unfolding size_of is_bodied sized_by
size_of_bodied int request header e = rw e refl

size_of-too_large :
    (int : String → Integer) (request : WebRequest)
    → IsTooLarge int request
    → size_of int request ≡ too_large
unfolding sized_by size_by
size_of-too_large int request large =
    size_of_bodied int request (some large.header) large.announced
    ∙ rw (is_bodied-true request.incoming.method large.bodied)
        (ground (arith, eq_iff large.header "", large.filled, large.reads, large.over))

size_of-fits :
    (int : String → Integer) (request : WebRequest)
    → IsSmall int request
    → size_of int request ≡ fits
unfolding sized_by size_by
size_of-fits int request (bodiless a b c) =
    size_of_bodied int request request.content_length refl
    ∙ rw (is_bodied-false request.incoming.method a b c) refl
size_of-fits int request (unannounced e) = size_of_bodied int request none e ∙ ground arith
size_of-fits int request (announced header bytes e reads le) =
    size_of_bodied int request (some header) e ∙ ground (arith, reads, le, eq_iff header "")

-- The client's address has had 300 requests or more in the minute, of 60 million microseconds, before
-- the request.
abbrev pub IsBusy : {W : Type 0} ⦃net : Network W⦄ → WebRequest → App W → Type 0
IsBusy ⦃net = net⦄ request s =
    let now = (net.time (world_of s)).0 in
    300
    ≤ length (
        filter (λ stamp. ltb now (stamp + 60 * 1000000))
          (stamps_of (or_unknown request.client_host) s.request_counts))

decided-busy :
    {W : Type 0} ⦃net : Network W⦄ (request : WebRequest) (s : App W)
    → IsBusy request s
    → (decided request s).0 ≡ false
unfolding admit
decided-busy request s busy = ground (arith, busy)

-- Why the middleware answers a request itself, and with what status.
pub data Shut {W : Type 0} ⦃net : Network W⦄ (int : String → Integer) (request : WebRequest)
    (s : App W) : ℕ → Type 0 where
  over_size : IsTooLarge int request → Shut int request s 413
  over_rate : IsSmall int request → IsBusy request s → Shut int request s 429

module _ {W : Type 0} ⦃env : Env W⦄ ⦃net : Network W⦄ (int : String → Integer)
    (proxy_api_key : String) (request : WebRequest) (route : Route) (s : App W) where
  abbrev pub served : Result Reply × App W
  served = serve int proxy_api_key request route s

  -- A request with a body that announces more than 100 MiB gets a 413. One that announces no more, or
  -- nothing, or has no body, gets a 429 if its client, by its address, has had 300 requests or more
  -- within the last minute. Either way neither the pods nor the circuit breakers change, and nothing
  -- is sent to the cluster or to a pod.
  pub serve-Shut :
      (status : ℕ)
      → Shut int request s status
      → (served.0 ≡ ok (refused status))
        × (served.1.manager.pods ≡ s.manager.pods)
        × (served.1.manager.storage.client.sent ≡ s.manager.storage.client.sent)
        × (served.1.proxy.sent ≡ s.proxy.sent)
        × (served.1.proxy.breakers ≡ s.proxy.breakers)
  unfolding serve
  serve-Shut _ (over_size large) =
      let inner = route_request request proxy_api_key route in
      let next = rate_limit_middleware request inner in
      rw (oversized int request next s (size_of-too_large int request large))
        (refl, refl, refl, refl, refl)
  serve-Shut _ (over_rate little busy) =
      let inner = route_request request proxy_api_key route in
      let next = rate_limit_middleware request inner in
      rw
        (
          fitting int request next s (size_of-fits int request little),
          limited request inner s (decided-busy request s busy),
        )
        (refl, refl, refl, refl, refl)
