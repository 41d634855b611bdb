-- ===== src/App/Middleware/Recorded.antt =====
-- What the middleware records of a request.
use open_terminal_k8s_proxy.Base.{
  ℕ, ◌≡◌, refl, ap, sym, ◌∙◌, ◌⊎◌, inl, inr, String, Bool-cases, ◌-◌,
}
use open_terminal_k8s_proxy.Base.Exec.{
  ok, err, Exn, ok-injective, Exec, Result, on, Preserves, Preserves-attempt, preserving,
  Exec-cases,
}
use open_terminal_k8s_proxy.App.{
  App, Route, WebRequest, Reply, refused, status_of, on_manager, on_proxy, world_of,
}
use open_terminal_k8s_proxy.App.Middleware.{Integer, size_of, clock, rate_limit_middleware, serve}
use open_terminal_k8s_proxy.App.Admission.{Preserves-dependencies}
use open_terminal_k8s_proxy.App.Forwarding.{handled-still, handler_lem}
use open_terminal_k8s_proxy.App.Routes.{route_request, handler}
use open_terminal_k8s_proxy.Http.{Network, Proxy}
use open_terminal_k8s_proxy.Kube.{Env}
use open_terminal_k8s_proxy.Metrics.{Metrics, record_request}
use open_terminal_k8s_proxy.PodManager.{Manager}
use open_terminal_k8s_proxy.App.Middleware.Gate.{
  decided, onward, limited, passed, broke, Size-cases, fitting, oversized, unread, served,
}

-- The metrics are `m`.
pub record Shows {W : Type 0} (m : Metrics) (s : App W) : Type 0 where
  pub metrics : s.metrics ≡ m

module _ {W : Type 0} (m : Metrics) where
  Shows-on_manager : {A : Type 0} (act : Exec (Manager W) A) → Preserves (Shows m) (on_manager act)
  unfolding on
  Shows-on_manager act = record { at = λ s h. record { metrics = h.metrics } }

  Shows-on_proxy : {A : Type 0} (act : Exec (Proxy W) A) → Preserves (Shows m) (on_proxy act)
  unfolding on
  Shows-on_proxy act = record { at = λ s h. record { metrics = h.metrics } }

not-both : {A : Type 0} {x : Exn} {a : A} → err x ≡ ok a → ⊥
not-both e = cc

ruleset shows_rules = (preserving, Shows-on_manager, Shows-on_proxy, Preserves-dependencies)

module _ {W : Type 0} ⦃env : Env W⦄ ⦃net : Network W⦄ (m : Metrics) where
  Shows-handler :
      (request : WebRequest) (route : Route) (user_id : String)
      → Preserves (Shows {W = W} m) (handler request route user_id)
  Shows-handler request route user_id = rw (handler_lem request route user_id) (search shows_rules)

  Shows-route_request :
      (request : WebRequest) (key : String) (route : Route)
      → Preserves (Shows {W = W} m) (route_request request key route)
  unfolding route_request
  Shows-route_request request key route =
      Preserves-attempt _ _ (search (shows_rules, Shows-handler))
        (λ x. record { at = λ s h. rw (handled-still x s) h })

-- The metrics `n` are `m` after one more answer with this status.
abbrev pub Recorded : WebRequest → Metrics → ℕ → Metrics → Type 0
Recorded request m status n =
    (latency : ℕ) × (n ≡ record_request request.incoming.method request.path latency status m)

-- What a request's end leaves of the metrics `m`.
abbrev pub Noted : WebRequest → Metrics → Result Reply → Metrics → Type 0
Noted request m (ok r) n = Recorded request m (status_of r) n
Noted request m (err x) n = n ≡ m

Result-cases : {A : Type 0} (r : Result A) → ((a : A) × (r ≡ ok a)) ⊎ ((x : Exn) × (r ≡ err x))
Result-cases (ok a) = inl (a, refl)
Result-cases (err x) = inr (x, refl)

module _ {W : Type 0} ⦃net : Network W⦄ (request : WebRequest) where
  module _ (call_next : Exec (App W) Reply) (same : (m : Metrics) → Preserves (Shows m) call_next)
      (s : App W) where
    kept : (call_next (onward request s)).1.metrics ≡ s.metrics
    unfolding clock
    kept = ((same s.metrics).at (onward request s) (record { metrics = refl })).metrics

    pub rate_limit-Recorded :
        (r : Reply)
        → (rate_limit_middleware request call_next s).0 ≡ ok r
        → Recorded request s.metrics
            (status_of r)
            (rate_limit_middleware request call_next s).1.metrics
    unfolding status_of
    rate_limit-Recorded r e = elim (Bool-cases (decided request s).0) [
      | inr shut ↦
          let here = limited request call_next s shut in
          let is : refused 429 ≡ r = ok-injective (sym (ap (λ x. x.0) here) ∙ e) in
          rw (here, sym is) (_, refl)
      | inl allowed ↦ elim (Exec-cases call_next (onward request s)) [
        | inr (x, f) ↦
            absurd (not-both (sym (ap (λ y. y.0) (broke request call_next s _ x allowed f)) ∙ e))
        | inl (a, f) ↦
            let here = passed request call_next s _ a allowed f in
            let is : a ≡ r = ok-injective (sym (ap (λ x. x.0) here) ∙ e) in
            let took =
              (net.time (world_of (call_next (onward request s)).1)).0
              - (net.time (world_of (decided request s).1)).0 in
            rw (here, is)
              (
                took,
                ap (λ m. record_request request.incoming.method request.path took (status_of r) m)
                    kept,
              )
      ]
    ]

    pub rate_limit-broken :
        (x : Exn)
        → (rate_limit_middleware request call_next s).0 ≡ err x
        → (rate_limit_middleware request call_next s).1.metrics ≡ s.metrics
    rate_limit-broken x e = elim (Bool-cases (decided request s).0) [
      | inr shut ↦ absurd (not-both (sym e ∙ ap (λ y. y.0) (limited request call_next s shut)))
      | inl allowed ↦ elim (Exec-cases call_next (onward request s)) [
        | inl (a, f) ↦
            absurd (not-both (sym e ∙ ap (λ y. y.0) (passed request call_next s _ a allowed f)))
        | inr (y, f) ↦ rw (broke request call_next s _ y allowed f) kept
      ]
    ]

module _ {W : Type 0} ⦃env : Env W⦄ ⦃net : Network W⦄ (int : String → Integer)
    (proxy_api_key : String) (request : WebRequest) (route : Route) (s : App W) where
  abbrev answered : Result Reply × App W
  answered = served int proxy_api_key request route s

  serve-answered :
      (r : Reply) → answered.0 ≡ ok r → Recorded request s.metrics (status_of r) answered.1.metrics
  unfolding serve status_of
  serve-answered r e =
      let next = rate_limit_middleware request (route_request request proxy_api_key route) in
      elim (Size-cases (size_of int request)) [
        | inl good ↦
            let here = fitting int request next s good in
            rw here (
              rate_limit-Recorded request (route_request request proxy_api_key route)
                (λ m. Shows-route_request m request proxy_api_key route) s r
                (sym (ap (λ x. x.0) here) ∙ e))
        | inr (inl large) ↦
            let here = oversized int request next s large in
            let is : refused 413 ≡ r = ok-injective (sym (ap (λ x. x.0) here) ∙ e) in
            rw (here, sym is) (0, refl)
        | inr (inr bad) ↦
            absurd (not-both (sym (ap (λ x. x.0) (unread int request next s bad)) ∙ e))
      ]

  serve-broken : (x : Exn) → answered.0 ≡ err x → answered.1.metrics ≡ s.metrics
  unfolding serve
  serve-broken x e =
      let inner = route_request request proxy_api_key route in
      let next = rate_limit_middleware request inner in
      elim (Size-cases (size_of int request)) [
        | inl good ↦
            let here = fitting int request next s good in
            rw here (
              rate_limit-broken request inner
                (λ m. Shows-route_request m request proxy_api_key route) s x
                (sym (ap (λ y. y.0) here) ∙ e))
        | inr (inl large) ↦
            absurd (not-both (sym e ∙ ap (λ y. y.0) (oversized int request next s large)))
        | inr (inr bad) ↦ rw (unread int request next s bad) refl
      ]

  -- What a request of a route leaves in the metrics, whatever its end: if the middleware or the
  -- handlers answer, it is recorded once, with the status of the answer; if an exception leaves the
  -- application, which the server then answers with a 500, the metrics are as they were.
  pub serve-Recorded : Noted request s.metrics answered.0 answered.1.metrics
  serve-Recorded = elim (Result-cases answered.0) [
    | inl (r, e) ↦ rw e (serve-answered r e)
    | inr (x, e) ↦ rw e (serve-broken x e)
  ]
