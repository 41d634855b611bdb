-- ===== src/Http/Circuit.antt =====
-- The proxy and the circuit breakers.
use open_terminal_k8s_proxy.Base.{
  ℕ, ◌≡◌, ◌∙◌, refl, Bool, true, false, String, ◌==◌, Option, none, some, List, [], ◌∷◌, map,
  truthy, if◌then◌else◌, arith, Bool-cases, Option-cases, inl, inr, ◌⊎◌,
}
use open_terminal_k8s_proxy.Base.Exec.{
  Exn, httpx_connect, httpx_timeout, Result, ok, err, Exec, pure, attempt, ◌>>=◌,
}
use open_terminal_k8s_proxy.Breaker.{CircuitBreaker, Event, asks, succeeds, fails, run, can_execute}
use open_terminal_k8s_proxy.Breaker.Registry.{breaker, serve, events_of, breaker-serve}
use open_terminal_k8s_proxy.Http.{
  Network, Proxy, Incoming, Upstream, Response, Answer, upstream, unavailable, get_client, forward,
  permitted, ask, report, excused, exchange, proxy_request,
}

-- The events of one key.
abbrev pub keyed : Option String → List Event → List (String × Event)
keyed none es = []
keyed (some key) es = map (λ e. (key, e)) es

-- What the breaker hears of an answer.
abbrev pub outcome : Result Answer → ℕ → List Event
outcome (ok answer) now = succeeds ∷ []
outcome (err httpx_connect) now = fails now ∷ []
outcome (err httpx_timeout) now = fails now ∷ []
outcome (err _) now = []

pub result-cases : (r : Result Answer) → ((a : Answer) × (r ≡ ok a)) ⊎ ((e : Exn) × (r ≡ err e))
result-cases (ok a) = inl (a, refl)
result-cases (err e) = inr (e, refl)

events_of-keyed :
    (key k : String) (es : List Event)
    → events_of k (keyed (some key) es) ≡ (if key == k then es else [])
events_of-keyed key k [] = ground arith
events_of-keyed key k (e ∷ es) = ground (arith, events_of-keyed key k es)

pub run-keyed :
    (key k : String) (es : List Event) (b : CircuitBreaker)
    → run (events_of k (keyed (some key) es)) b ≡ (if key == k then run es b else b)
unfolding run
run-keyed key k es b = rw (events_of-keyed key k es) (ground arith)

module _ {W : Type 0} ⦃net : Network W⦄ where
  -- Whether the request goes to the pod.
  abbrev pub permits : Option String → Proxy W → Bool
  permits none s = true
  permits (some key) s = (can_execute (net.time s.world).0 (breaker key s.breakers)).0

  ask_lem :
      (key : Option String) (s : Proxy W)
      → ((ask key s).0 ≡ ok (permits key s)) × ((ask key s).1.sent ≡ s.sent)
  unfolding ask permitted pure
  ask_lem none s = (refl, refl)
  ask_lem (some key) s = (refl, refl)

  report-sent :
      (key : Option String) (event : ℕ → Event) (s : Proxy W) → (report key event s).1.sent ≡ s.sent
  unfolding report
  report-sent none event s = refl
  report-sent (some key) event s = refl

  report_returns :
      (key : Option String) (event : ℕ → Event) (s : Proxy W) → (report key event s).0 ≡ ok tt
  unfolding report
  report_returns none event s = refl
  report_returns (some key) event s = refl

  pub report-breakers :
      (key : Option String) (event : ℕ → Event) (s : Proxy W)
      → (report key event s).1.breakers
        ≡ serve (keyed key (event (net.time s.world).0 ∷ [])) s.breakers
  unfolding report serve
  report-breakers none event s = refl
  report-breakers (some key) event s = refl

  pub excused_lem :
      (key : Option String) (e : Exn) (s : Proxy W)
      → ((excused key e s).1.sent ≡ s.sent)
        × ((excused key e s).1.breakers
            ≡ serve (keyed key (outcome (err e) (net.time s.world).0)) s.breakers)
  unfolding excused ◌>>=◌ serve
  excused_lem key httpx_connect s =
      rw (report_returns key fails s) (report-sent key fails s, report-breakers key fails s)
  excused_lem key httpx_timeout s =
      rw (report_returns key fails s) (report-sent key fails s, report-breakers key fails s)
  excused_lem none e s = ground arith
  excused_lem (some key) e s = ground arith

  exchange_lem :
      (key : Option String) (up : Upstream) (s : Proxy W)
      → ((exchange key up s).1.sent ≡ up ∷ s.sent)
        × ((exchange key up s).1.breakers
            ≡ serve
                (keyed key
                  (outcome (net.request up s.world).0 (net.time (net.request up s.world).1).0))
                s.breakers)
  unfolding exchange attempt get_client ◌>>=◌ pure forward
  exchange_lem key up s =
      let w = (net.request up s.world).1 in
      let after = record s { world = w; has_client = true; sent = up ∷ s.sent } in
      elim (result-cases (net.request up s.world).0) [
        | inl (a, e) ↦ rw e (
            rw (report_returns key (λ _. succeeds) after)
              (report-sent key (λ _. succeeds) after, report-breakers key (λ _. succeeds) after))
        | inr (x, e) ↦ rw e (excused_lem key x after)
      ]

  module _ (up : Upstream) where
    -- What the breaker of a pod hears of one request: the question, and the outcome if the request
    -- was sent.
    abbrev pub heard : String → Proxy W → List Event
    heard key s =
        let (now, w) = net.time s.world in
        let (answer, w') = net.request up w in
        asks now ∷ (if permits (some key) s then outcome answer (net.time w').0 else [])

    abbrev by_key : Option String → Exec (Proxy W) Response
    by_key key = ask key >>= λ allowed. if allowed then exchange key up else pure unavailable

    refused_lem :
        (key : String) (s : Proxy W)
        → permits (some key) s ≡ false
        → by_key (some key) s ≡ (ok unavailable, (ask (some key) s).1)
    unfolding ◌>>=◌ ask permitted pure
    refused_lem key s shut = rw shut refl

    unkeyed_lem : (s : Proxy W) → by_key none s ≡ exchange none up s
    unfolding ◌>>=◌ ask pure
    unkeyed_lem s = refl

    allowed_lem :
        (key : String) (s : Proxy W)
        → permits (some key) s ≡ true
        → by_key (some key) s ≡ exchange (some key) up (ask (some key) s).1
    unfolding ◌>>=◌ ask permitted pure
    allowed_lem key s good = rw good refl

    by_key_lem :
        (key : String) (s : Proxy W)
        → ((by_key (some key) s).1.sent ≡ (if permits (some key) s then up ∷ s.sent else s.sent))
          × ((by_key (some key) s).1.breakers ≡ serve (keyed (some key) (heard key s)) s.breakers)
          × ((by_key (some key) s).0 ≡ (
              if permits (some key) s
              then (exchange (some key) up (ask (some key) s).1).0
              else ok unavailable))
    unfolding ask permitted serve
    by_key_lem key s =
        let asked = (ask (some key) s).1 in
        elim (Bool-cases (permits (some key) s)) [
          | inl good ↦
              let (sent, breakers) = exchange_lem (some key) up asked in
              rw (allowed_lem key s good) (rw good (sent, breakers, refl))
          | inr shut ↦ rw (refused_lem key s shut) (rw shut (refl, refl, refl))
        ]

  module _ (target_url : String) (request : Incoming) (terminal_api_key key : String) (s : Proxy W)
      (named : truthy (some key) ≡ some key) where
    abbrev up : Upstream
    up = upstream net.text target_url request terminal_api_key

    abbrev after : Result Response × Proxy W
    after = proxy_request target_url request terminal_api_key (some key) s

    asked_by_key : after ≡ by_key up (some key) s
    unfolding proxy_request
    asked_by_key = rw named refl

    -- A request for a pod with a circuit breaker is sent to the pod, and sent once, exactly if the
    -- breaker lets it through at the time of the clock; if not, the answer is a 503 of the proxy's.
    pub proxy_request-sent :
        (after.1.sent ≡ (if permits (some key) s then up ∷ s.sent else s.sent))
        × (after.0 ≡ (
            if permits (some key) s
            then (exchange (some key) up (ask (some key) s).1).0
            else ok unavailable))
    proxy_request-sent =
        let (sent, breakers, answer) = by_key_lem up key s in rw asked_by_key (sent, answer)

    -- After a request for a pod, the pod's breaker has been asked, and if it let the request
    -- through, it has heard of a success for an answer of whatever status, of a failure for a
    -- connection error or a timeout, and of nothing for any other error; the breakers of all other
    -- pods are as they were.
    pub breaker-proxy_request :
        (k : String)
        → breaker k after.1.breakers
          ≡ (if key == k then run (heard up key s) (breaker k s.breakers) else breaker k s.breakers)
    breaker-proxy_request k =
        let (sent, breakers, answer) = by_key_lem up key s in
        rw asked_by_key (
          rw breakers (
            breaker-serve k (keyed (some key) (heard up key s)) s.breakers
            ∙ run-keyed key k (heard up key s) (breaker k s.breakers)))

module _ {W : Type 0} ⦃net : Network W⦄ (target_url : String) (request : Incoming)
    (terminal_api_key : String) where
  -- A request is sent to the pod exactly if there is no breaker to ask or it lets the request
  -- through.
  pub proxy_request-sent_if :
      (pod_key : Option String) (s : Proxy W)
      → (proxy_request target_url request terminal_api_key pod_key s).1.sent ≡ (
          if permits (truthy pod_key) s
          then upstream net.text target_url request terminal_api_key ∷ s.sent
          else s.sent)
  unfolding proxy_request
  proxy_request-sent_if pod_key s =
      let up = upstream net.text target_url request terminal_api_key in
      elim (Option-cases (truthy pod_key)) [
        | inl e ↦ rw (e, unkeyed_lem up s) (exchange_lem none up s).0
        | inr (key, e) ↦ rw e (by_key_lem up key s).0
      ]

  -- A request is sent to the pod at most once, whatever the breaker and the pod answer.
  pub proxy_request-grows :
      (pod_key : Option String) (s : Proxy W)
      → ((proxy_request target_url request terminal_api_key pod_key s).1.sent ≡ s.sent)
        ⊎ ((proxy_request target_url request terminal_api_key pod_key s).1.sent
            ≡ upstream net.text target_url request terminal_api_key ∷ s.sent)
  proxy_request-grows pod_key s =
      let sent = proxy_request-sent_if pod_key s in
      elim (Bool-cases (permits (truthy pod_key) s)) [
        | inl good ↦ inr (ground (arith, sent, good))
        | inr shut ↦ inl (ground (arith, sent, shut))
      ]
